-- ===== src/FrameSlot/Frames.antt =====
-- Where every frame goes: held, taken, handed back or handed to the release callback.
use sbs_server.Prelude.{
  ℕ, ◌+◌, ◌≡◌, ◌≢◌, refl, some, List, [], ◌∷◌, ◌++◌, arith, map, if◌then◌else◌, ◌==◌, All, ap, sym,
  subst,
}
use mathlib.Core.List.{append-nil}
use sbs_server.FrameSlot.Op.{
  Op, publishes, exchanges, acquires, takes, takes_oldest, flushes, sets_release,
}
use sbs_server.FrameSlot.{Slot, Entry, Calls, init, release_frame, set_release_func}
use sbs_server.FrameSlot.Spec
use sbs_server.FrameSlot.Spec.{Queue, split_newest, release_all}
use sbs_server.FrameSlot.Steps.{step, run}
use sbs_server.FrameSlot.Invariant.{view, contents}
use sbs_server.FrameSlot.Refine.{run_refines, init-IsValid, step-IsValid}

-- How often a frame stands in a list of frames.
abbrev pub occurrences : ℕ → List ℕ → ℕ
occurrences f [] = 0
occurrences f (x ∷ xs) = (if x == f then 1 else 0) + occurrences f xs

abbrev pub frames : List Entry → List ℕ
frames = map λ e. e.frame

abbrev pub released : Calls → List ℕ
released = map λ c. c.1

-- The frame that a call brings in.
abbrev pub accepted : Op → List ℕ
accepted (publishes frame ts) = frame ∷ []
accepted (exchanges frame ts) = frame ∷ []
accepted _ = []

-- The frames that leave with a call: what is given back (`acquire` only shows its frame), and what
-- the callback gets.
abbrev pub leaving : Op → ℕ × ℕ × Calls → List ℕ
leaving acquires (frame, ts, calls) = released calls
leaving _ (frame, ts, calls) = frame ∷ released calls

abbrev pub IsFrameCall : Op → Type 0
IsFrameCall (sets_release fn) = ⊥
IsFrameCall _ = Unit {0}

occurrences-append :
    (f : ℕ) (xs ys : List ℕ) → occurrences f (xs ++ ys) ≡ occurrences f xs + occurrences f ys
occurrences-append f [] ys = omega arith
occurrences-append f (x ∷ xs) ys = omega (arith, occurrences-append f xs ys)

frames-append : (xs ys : List Entry) → frames (xs ++ ys) ≡ frames xs ++ frames ys
frames-append [] ys = refl
frames-append (x ∷ xs) ys = ap (λ l. x.frame ∷ l) (frames-append xs ys)

abbrev pub all_accepted : List Op → List ℕ
all_accepted [] = []
all_accepted (op ∷ ops) = accepted op ++ all_accepted ops

abbrev pub all_leaving : List Op → List (ℕ × ℕ × Calls) → List ℕ
all_leaving (op ∷ ops) (r ∷ rs) = leaving op r ++ all_leaving ops rs
all_leaving _ _ = []

module _ (f : ℕ) (real : f ≢ 0) (fn : ℕ) where
  occurrences-release_frame :
      (frame : ℕ) (rest : Calls)
      → occurrences f (released (release_frame (some fn) frame ++ rest))
        ≡ (if frame == f then 1 else 0) + occurrences f (released rest)
  unfolding release_frame
  occurrences-release_frame frame rest = ground arith

  occurrences-release_all :
      (es : List Entry)
      → occurrences f (released (release_all (some fn) es)) ≡ occurrences f (frames es)
  unfolding release_all
  occurrences-release_all [] = refl
  occurrences-release_all (e ∷ es) = omega (
    arith,
    occurrences-release_frame e.frame (release_all (some fn) es),
    occurrences-release_all es,
  )

  occurrences-split_newest :
      (e : Entry) (es : List Entry)
      → let (older, newest) = split_newest e es in
        occurrences f (frames older) + (if newest.frame == f then 1 else 0)
        ≡ occurrences f (frames (e ∷ es))
  unfolding split_newest
  occurrences-split_newest e [] = omega arith
  occurrences-split_newest e (e' ∷ es) = omega (arith, occurrences-split_newest e' es)

  abbrev Conserves : Queue → Op → Type 0
  Conserves q op =
      let (frame, ts, q', calls) = Spec.step q op in
      (occurrences f (frames q'.held) + occurrences f (leaving op (frame, ts, calls))
        ≡ occurrences f (frames q.held) + occurrences f (accepted op))
      × (q'.release_fn ≡ some fn)

  exchange_conserves :
      (q : Queue) (es : List Entry) (frame ts : ℕ)
      → q.held ≡ es
      → q.release_fn ≡ some fn
      → let (out, q', calls) = Spec.exchange q frame ts in
        (occurrences f (frames q'.held) + occurrences f (released calls)
          ≡ occurrences f (frames q.held) + (if frame == f then 1 else 0))
        × (q'.release_fn ≡ some fn)
        × (out ≡ 0)
  unfolding Spec.exchange
  exchange_conserves q [] frame ts e r = ground arith
  exchange_conserves q (x ∷ xs) frame ts e r = ground (
    arith,
    frames-append (x ∷ xs) (record { frame = frame; timestamp_us = ts } ∷ []),
    frames-append xs (record { frame = frame; timestamp_us = ts } ∷ []),
    occurrences-append f (frames (x ∷ xs)) (frame ∷ []),
    occurrences-append f (frames xs) (frame ∷ []),
  )

  publish-Conserves :
      (q : Queue) (frame ts : ℕ) → q.release_fn ≡ some fn → Conserves q (publishes frame ts)
  unfolding Spec.step Spec.publish release_frame
  publish-Conserves q frame ts r =
      let (counted, kept, none_out) = exchange_conserves q q.held frame ts refl r in
      let calls = (Spec.exchange q frame ts).2 in rw (none_out, append-nil) (ground (arith, real))

  step-Conserves :
      (q : Queue) (es : List Entry) (op : Op)
      → q.held ≡ es
      → IsFrameCall op
      → q.release_fn ≡ some fn
      → Conserves q op
  unfolding Spec.step Spec.take Spec.take_oldest Spec.flush
  step-Conserves q es (publishes frame ts) e k r = publish-Conserves q frame ts r
  step-Conserves q es (exchanges frame ts) e k r =
      ground (arith, exchange_conserves q q.held frame ts refl r)
  step-Conserves q es acquires e k r = ground arith
  step-Conserves q [] takes e k r = ground arith
  step-Conserves q (x ∷ xs) takes e k r =
      ground (arith, occurrences-release_all (split_newest x xs).0, occurrences-split_newest x xs)
  step-Conserves q [] takes_oldest e k r = ground arith
  step-Conserves q (x ∷ xs) takes_oldest e k r = ground arith
  step-Conserves q es flushes e k r = ground (arith, occurrences-release_all q.held)
  step-Conserves q es (sets_release other) e k r = elim k [ ]

  run_conserves :
      (ops : List Op) (q : Queue)
      → All IsFrameCall ops
      → q.release_fn ≡ some fn
      → let (seen, q') = Spec.run q ops in
        occurrences f (frames q'.held) + occurrences f (all_leaving ops seen)
        ≡ occurrences f (frames q.held) + occurrences f (all_accepted ops)
  unfolding Spec.run
  run_conserves [] q k r = refl
  run_conserves (op ∷ ops) q k r =
      let (now, kept) = step-Conserves q q.held op refl k.0 r in
      let (frame, ts, q', calls) = Spec.step q op in
      let later = run_conserves ops q' k.1 kept in
      omega (
        arith,
        now,
        later,
        occurrences-append f (leaving op (frame, ts, calls)) (all_leaving ops (Spec.run q' ops).0),
        occurrences-append f (accepted op) (all_accepted ops),
      )

-- A slot with the callback `fn`, as `sbs_scene_graph_create_source` sets it up.
abbrev pub fresh_slot : ℕ → Slot
fresh_slot fn = (step init (sets_release (some fn))).2

-- For every history of calls other than `sbs_frame_slot_set_release_func`, from a new slot with a
-- release callback, and every frame other than NULL: the times it is still held and the times it
-- left, by being taken, handed back or handed to the callback, make up the times it came in. So no
-- frame is lost, released twice, or released while it is taken.
pub frames_conserved :
    (fn f : ℕ) (ops : List Op)
    → f ≢ 0
    → All IsFrameCall ops
    → let (seen, s') = run (fresh_slot fn) ops in
      occurrences f (frames (contents s')) + occurrences f (all_leaving ops seen)
      ≡ occurrences f (all_accepted ops)
frames_conserved fn f ops real k =
    let valid = step-IsValid (sets_release (some fn)) init-IsValid in
    let (_, same) = run_refines ops valid in
    let spec =
      run_conserves f real fn ops (view (fresh_slot fn)) k
        (unfold step init set_release_func in refl) in
    subst
      (λ r.
        occurrences f (frames r.1.held) + occurrences f (all_leaving ops r.0)
        ≡ occurrences f (all_accepted ops))
      (sym same) (unfold step init set_release_func in omega (arith, spec))
