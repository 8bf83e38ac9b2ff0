-- ===== src/SourceSup/Messages/Loop.antt =====
-- The loop over the messages that wait on a connection.
use sbs_server.Prelude.{
  ℕ, ◌+◌, ◌≡◌, refl, Bool, true, false, ◌&&◌, Option, none, some, List, [], ◌∷◌, ◌++◌,
  if◌then◌else◌, arith, All,
}
use sbs_server.Prelude.Bytes.{Bytes}
use sbs_server.Prelude.Int.{ℤ}
use sbs_server.Effects.{Effect}
use sbs_server.Effects.Ledger.{tally, tally-append, holds, opened, closed}
use sbs_server.FrameSlot.Release.{FrameFds, fds_held}
use sbs_server.Ipc.Transport.{VideoFrame}
use sbs_server.SceneGraph.Types.{Source}
use sbs_server.SourceSup.Messages.{
  Signal, take_frame, drop_unknown, frame_source, status_source, signal_source,
}
use sbs_server.SourceSup.Messages.Frames.{
  AreApart, published_fds, take_frame-whole, drop_unknown-closed,
}

-- A message that `sbs_ipc_recv_frame2` gives, with its descriptors; for a video frame also whether
-- there is memory, what `dup` gives and the time.
pub data Incoming : Type 0 where
  video : VideoFrame → Option ℕ → Option ℕ → Bool → Option ℕ → ℤ → Incoming
  status : ℕ → Bytes → Option ℕ → Option ℕ → Incoming
  signal : Signal → Option ℕ → Option ℕ → Incoming
  unknown : Option ℕ → Option ℕ → Incoming

-- What the loop works on: the time of the last frame, the source of the graph, if there is a graph
-- that has it, the frames published so far, the newest first, and how often the scene is refreshed and
-- a status is announced.
pub record Heard : Type 0 where
  pub last_frame_time : ℤ
  pub source : Option Source
  pub published : List FrameFds
  pub refreshes : ℕ
  pub announced : ℕ

abbrev pub count_if : Bool → ℕ → ℕ
count_if b n = if b then n + 1 else n

-- A frame's part in the graph.
unfoldable pub show_frame : Bool → Heard → VideoFrame → Option Source → Heard
show_frame api h msg none = h
show_frame api h msg (some src) =
    let (src', changed) = frame_source src msg in
    record h { source = some src'; refreshes = count_if (changed && api) h.refreshes }

unfoldable pub hear_status : Bool → Heard → ℕ → Bytes → Option Source → Heard
hear_status api h state error none = h
hear_status api h state error (some src) =
    let (src', new) = status_source src state error in
    record h { source = some src'; announced = count_if (new && api) h.announced }

unfoldable pub hear_signal : Bool → Heard → Signal → Option Source → Heard
hear_signal api h sc none = h
hear_signal api h sc (some src) = record h {
  source = some (signal_source src sc);
  refreshes = count_if api h.refreshes;
}

abbrev pub add_published : Option FrameFds → List FrameFds → List FrameFds
add_published none fs = fs
add_published (some f) fs = f ∷ fs

-- One message: on the connection `conn`, at a source that is muted or not, with an API server or not.
unfoldable pub receive : Bool → Bool → ℕ → Heard → Incoming → Heard × List Effect
unfolding show_frame hear_status hear_signal
receive muted api conn h (video msg fd fd2 memory dup now) =
    let (f, calls) = take_frame muted (some conn) msg fd fd2 memory dup in
    let timed : Heard = record h { last_frame_time = now } in
    let shown = (if muted then timed else show_frame api timed msg timed.source) in
    (record shown { published = add_published f shown.published }, calls)
receive muted api conn h (status state error fd fd2) = (hear_status api h state error h.source, [])
receive muted api conn h (signal sc fd fd2) = (hear_signal api h sc h.source, [])
receive muted api conn h (unknown fd fd2) = (h, drop_unknown fd fd2)

unfoldable pub receive_all : Bool → Bool → ℕ → Heard → List Incoming → Heard × List Effect
unfolding receive
receive_all muted api conn h [] = (h, [])
receive_all muted api conn h (i ∷ is) =
    let (h', calls) = receive muted api conn h i in
    let (h'', rest) = receive_all muted api conn h' is in (h'', calls ++ rest)

-- The descriptors that come with messages, and those of published frames.
abbrev pub brought : ℕ → List Incoming → ℕ
brought x [] = 0
brought x (video msg fd fd2 memory dup now ∷ is) = holds x fd + holds x fd2 + brought x is
brought x (unknown fd fd2 ∷ is) = holds x fd + holds x fd2 + brought x is
brought x (status state error fd fd2 ∷ is) = holds x fd + holds x fd2 + brought x is
brought x (signal sc fd fd2 ∷ is) = holds x fd + holds x fd2 + brought x is

abbrev pub all_held : ℕ → List FrameFds → ℕ
all_held x [] = 0
all_held x (f ∷ fs) = fds_held x f + all_held x fs

-- The two descriptors are not the same; and none come with a status or a signal change, which the
-- code would not close.
abbrev pub Apart : Incoming → Type 0
Apart (video msg fd fd2 memory dup now) = AreApart fd fd2
Apart (unknown fd fd2) = AreApart fd fd2
Apart (status state error fd fd2) = (fd ≡ none) × (fd2 ≡ none)
Apart (signal sc fd fd2) = (fd ≡ none) × (fd2 ≡ none)

all_held-add :
    (x : ℕ) (f : Option FrameFds) (fs : List FrameFds)
    → all_held x (add_published f fs) ≡ published_fds x f + all_held x fs
all_held-add x none fs = omega arith
all_held-add x (some f) fs = omega arith

shown-published :
    (api : Bool) (h : Heard) (msg : VideoFrame) (src : Option Source)
    → (show_frame api h msg src).published ≡ h.published
unfolding show_frame
shown-published api h msg none = refl
shown-published api h msg (some src) = refl

status-published :
    (api : Bool) (h : Heard) (state : ℕ) (error : Bytes) (src : Option Source)
    → (hear_status api h state error src).published ≡ h.published
unfolding hear_status
status-published api h state error none = refl
status-published api h state error (some src) = refl

signal-published :
    (api : Bool) (h : Heard) (sc : Signal) (src : Option Source)
    → (hear_signal api h sc src).published ≡ h.published
unfolding hear_signal
signal-published api h sc none = refl
signal-published api h sc (some src) = refl

abbrev pub ReceiveKept : ℕ → Heard → ℕ → Heard × List Effect → Type 0
ReceiveKept x h n (h', calls) =
    all_held x h.published + n + tally (opened x) calls
    ≡ all_held x h'.published + tally (closed x) calls

pub receive-ReceiveKept :
    (x : ℕ) (muted api : Bool) (conn : ℕ) (h : Heard) (i : Incoming)
    → Apart i
    → ReceiveKept x h (brought x (i ∷ [])) (receive muted api conn h i)
unfolding receive
receive-ReceiveKept x true api conn h (video msg fd fd2 memory dup now) apart =
    let (f, calls) = take_frame true (some conn) msg fd fd2 memory dup in
    omega (
      arith,
      take_frame-whole x conn true msg fd fd2 memory dup apart,
      all_held-add x f h.published,
    )
receive-ReceiveKept x false api conn h (video msg fd fd2 memory dup now) apart =
    let (f, calls) = take_frame false (some conn) msg fd fd2 memory dup in
    let timed : Heard = record h { last_frame_time = now } in
    rw (shown-published api timed msg h.source) (
      omega (
        arith,
        take_frame-whole x conn false msg fd fd2 memory dup apart,
        all_held-add x f h.published,
      ))
receive-ReceiveKept x muted api conn h (status state error fd fd2) apart =
    rw (status-published api h state error h.source) (ground (arith, apart))
receive-ReceiveKept x muted api conn h (signal sc fd fd2) apart =
    rw (signal-published api h sc h.source) (ground (arith, apart))
receive-ReceiveKept x muted api conn h (unknown fd fd2) apart =
    omega (arith, drop_unknown-closed x fd fd2 apart)

brought-cons :
    (x : ℕ) (i : Incoming) (is : List Incoming)
    → brought x (i ∷ is) ≡ brought x (i ∷ []) + brought x is
brought-cons x (video msg fd fd2 memory dup now) is = omega arith
brought-cons x (status state error fd fd2) is = omega arith
brought-cons x (signal sc fd fd2) is = omega arith
brought-cons x (unknown fd fd2) is = omega arith

-- All messages that wait on a connection, with different descriptors where one has two and none with a
-- status or a signal change: each descriptor that arrived, that `dup` opened or that was in a published frame before is closed or in
-- a published frame, once, whatever the mix of messages and whether the source is muted.
pub receive_all-kept :
    (x : ℕ) (muted api : Bool) (conn : ℕ) (h : Heard) (is : List Incoming)
    → All Apart is
    → let (h', calls) = receive_all muted api conn h is in
      all_held x h.published + brought x is + tally (opened x) calls
      ≡ all_held x h'.published + tally (closed x) calls
unfolding receive_all
receive_all-kept x muted api conn h [] apart = omega arith
receive_all-kept x muted api conn h (i ∷ is) apart =
    let (h', calls) = receive muted api conn h i in
    let rest = (receive_all muted api conn h' is).1 in
    omega (
      arith,
      receive-ReceiveKept x muted api conn h i apart.0,
      receive_all-kept x muted api conn h' is apart.1,
      brought-cons x i is,
      tally-append (opened x) calls rest,
      tally-append (closed x) calls rest,
    )
