-- ===== src/FrameSlot/Tests.antt =====
-- Concrete runs of a frame slot.
use sbs_server.Prelude.{true, some, ◌+◌, ◌%◌, ◌≤◌, ◌≡◌, refl, List, [], ◌∷◌, arith}
use sbs_server.Prelude.Words.{u64_mod}
use sbs_server.FrameSlot.{
  ring_size, init, release_frame, publish, take, take_oldest, acquire, set_release_func, get_stats,
}
use sbs_server.FrameSlot.Op.{Op, publishes, acquires, takes, takes_oldest}
use sbs_server.FrameSlot.Steps.{step, run}
use sbs_server.FrameSlot.Spec
use sbs_server.FrameSlot.Invariant.{IsValid, view, contents}
use sbs_server.FrameSlot.Refine.{init-IsValid, run_refines}
use sbs_server.FrameSlot.Accounting.{stats_balance}
use sbs_server.FrameSlot.Release.{FrameFds}
use sbs_server.FrameSlot.Frames.{occurrences, frames, all_leaving, fresh_slot, frames_conserved}

-- Five frames: the first is released by callback 1, then the oldest and the newest are taken.
abbrev five : List Op
five =
    publishes 11 100
    ∷ publishes 12 200
    ∷ publishes 13 300
    ∷ publishes 14 400
    ∷ publishes 15 500
    ∷ takes_oldest
    ∷ takes
    ∷ acquires
    ∷ []

five_seen :
    (run (fresh_slot 1) five).0
    ≡ (0, 0, [])
      ∷ (0, 0, [])
      ∷ (0, 0, [])
      ∷ (0, 0, [])
      ∷ (0, 0, (1, 11) ∷ [])
      ∷ (12, 200, [])
      ∷ (15, 500, (1, 13) ∷ (1, 14) ∷ [])
      ∷ (0, 0, [])
      ∷ []
unfolding run step init set_release_func publish take take_oldest acquire release_frame
five_seen = refl

run_refines_example :
    let (seen, s) = run init five in IsValid s × ((seen, view s) ≡ Spec.run (view init) five)
run_refines_example = run_refines five init-IsValid

stats_balance_example :
    let st = get_stats (run init five).1 in
    (st.held ≤ ring_size) × ((st.dropped + st.consumed + st.held) % u64_mod ≡ st.produced)
stats_balance_example = stats_balance five

frames_conserved_example :
    let (seen, s) = run (fresh_slot 1) five in
    occurrences 13 (frames (contents s)) + occurrences 13 (all_leaving five seen) ≡ 1
frames_conserved_example = frames_conserved 1 13 five (omega arith) (omega arith)

abbrev two_planes : FrameFds
two_planes = record {
  dmabuf_fd = some 21;
  dmabuf_fd2 = some 22;
  release_sock_fd = some 23;
  release_sequence = 7;
  needs_release_ack = true;
}
