-- ===== src/SourceSup/Messages/Tests.antt =====
-- A received frame, and more.
use sbs_server.SourceSup.Messages.Loop.{
  Heard, Incoming, video, status, unknown, receive_all, all_held, brought, receive_all-kept,
}
use sbs_server.Prelude.Int.{pos}
use sbs_server.Prelude.{
  List, ◌+◌, ◌≡◌, refl, true, false, none, some, [], ◌∷◌, if◌then◌else◌, arith,
}
use sbs_server.Prelude.Bytes.{codes}
use sbs_server.Effects.Ledger.{tally, holds, opened, closed}
use sbs_server.Ipc.Transport.{VideoFrame}
use sbs_server.SceneGraph.Types.{Source, SourceCreate, videotestsrc}
use sbs_server.SceneGraph.Sources.{new_source}
use sbs_server.SourceSup.Messages.{
  take_frame, needs_release, frame_source, size_same, format_same, colour_same,
}
use sbs_server.SourceSup.Messages.Frames.{published_fds, acks, acks_due, take_frame-whole}

-- A frame that asks for its release.
abbrev frame : VideoFrame
frame = record {
  header = record { msg_type = 1; payload_size = 120 };
  pts_ns = 0;
  dts_ns = 0;
  duration_ns = 0;
  sequence = 7;
  width = 1920;
  height = 1080;
  drm_format = 0x3231564e;
  drm_modifier = 0;
  n_planes = 2;
  plane_offset = 0 ∷ 2073600 ∷ 0 ∷ 0 ∷ [];
  plane_stride = 1920 ∷ 1920 ∷ 0 ∷ 0 ∷ [];
  buffer_type = 0;
  flags = 64;
  dmabuf_fd2 = some 22;
}

take_frame-whole_example :
    let (f, calls) = take_frame false (some 8) frame (some 21) (some 22) true (some 23) in
    (holds 22 (some 21) + holds 22 (some 22) + tally (opened 22) calls
      ≡ published_fds 22 f + tally (closed 22) calls)
    × (tally (acks frame.sequence) calls + acks_due frame.sequence f
        ≡ (if needs_release frame then 1 else 0))
take_frame-whole_example =
    take_frame-whole 22 8 false frame (some 21) (some 22) true (some 23) (omega arith)

abbrev pattern_params : SourceCreate
pattern_params = record {
  id = some (codes "cam");
  name = none;
  kind = videotestsrc;
  enabled = true;
  keep_alive = false;
  config = none;
}

-- A source that has had the frame once.
abbrev shown : Source
shown = (frame_source (new_source (codes "cam") pattern_params) frame).0

shown_again : (frame_source shown frame).1 ≡ false
unfolding frame_source size_same format_same colour_same new_source
shown_again = refl

abbrev unheard : Heard
unheard = record {
  last_frame_time = pos 0;
  source = some shown;
  published = [];
  refreshes = 0;
  announced = 0;
}

-- A frame, a status and something unknown.
abbrev mail : List Incoming
mail =
    video frame (some 21) (some 22) true (some 23) (pos 5)
    ∷ status 2 [] none none
    ∷ unknown (some 24) none
    ∷ []

receive_all-kept_example :
    let (h', calls) = receive_all false true 8 unheard mail in
    all_held 24 unheard.published + brought 24 mail + tally (opened 24) calls
    ≡ all_held 24 h'.published + tally (closed 24) calls
receive_all-kept_example =
    receive_all-kept 24 false true 8 unheard mail (omega arith, ((refl, refl), (tt, tt)))
