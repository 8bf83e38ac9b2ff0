-- ===== src/SourceSup/Messages/Reading.antt =====
-- The loop over the messages with all its calls: what `recvmsg` brings, what each message's branch does,
-- and what goes to the frame slot.
use sbs_server.Prelude.{
  ℕ, ◌+◌, ◌≡◌, refl, Bool, Option, none, some, List, [], ◌∷◌, ◌++◌, arith, All,
}
use sbs_server.Effects.{Effect, Sent, opens, closes, sends, publishes}
use sbs_server.Effects.Ledger.{tally, tally-append, opened, closed}
use sbs_server.FrameSlot.Release.{FrameFds, published, close_second, fds_release, release_ack}
use sbs_server.SourceSup.Messages.{take_frame, keep_frame, leased_frame, send_release}
use sbs_server.SourceSup.Messages.Loop.{
  Incoming, video, status, signal, unknown, Heard, receive, brought, all_held, Apart,
  receive-ReceiveKept,
}

abbrev open_fd : Option ℕ → List Effect
open_fd none = []
open_fd (some fd) = opens fd ∷ []

-- The descriptors that `sbs_ipc_recv_frame2` gives with a message.
unfoldable pub arrive : Incoming → List Effect
arrive (video msg fd fd2 memory dup now) = open_fd fd ++ open_fd fd2
arrive (status state error fd fd2) = open_fd fd ++ open_fd fd2
arrive (signal sc fd fd2) = open_fd fd ++ open_fd fd2
arrive (unknown fd fd2) = open_fd fd ++ open_fd fd2

unfoldable pub publish_each : List FrameFds → List Effect
publish_each [] = []
publish_each (f ∷ fs) = publishes f.release_sock_fd f.dmabuf_fd f.dmabuf_fd2 ∷ publish_each fs

-- The loop: each message is received, its branch runs, and the frame that it leaves is published.
unfoldable pub read_messages : Bool → Bool → ℕ → Heard → List Incoming → Heard × List Effect
unfolding arrive publish_each
read_messages muted api conn h [] = (h, [])
read_messages muted api conn h (i ∷ is) =
    let (h', calls) = receive muted api conn (record h { published = [] }) i in
    let (h'', rest) = read_messages muted api conn h' is in
    (h'', arrive i ++ (calls ++ (publish_each h'.published ++ rest)))

arrive-brought :
    (x : ℕ) (i : Incoming)
    → (tally (opened x) (arrive i) ≡ brought x (i ∷ []))
      × (tally (closed x) (arrive i) ≡ 0)
      × (tally (published x) (arrive i) ≡ 0)
unfolding arrive
arrive-brought x (video msg fd fd2 memory dup now) = ground arith
arrive-brought x (status state error fd fd2) = ground arith
arrive-brought x (signal sc fd fd2) = ground arith
arrive-brought x (unknown fd fd2) = ground arith

publish_each-held :
    (x : ℕ) (fs : List FrameFds)
    → (tally (published x) (publish_each fs) ≡ all_held x fs)
      × (tally (opened x) (publish_each fs) ≡ 0)
      × (tally (closed x) (publish_each fs) ≡ 0)
unfolding publish_each
publish_each-held x [] = ground arith
publish_each-held x (f ∷ fs) = omega (arith, publish_each-held x fs)

-- A weight that is 0 on descriptors, messages and frames.
abbrev pub IsOther : (Effect → ℕ) → Type 0
IsOther w =
    ((fd : ℕ) → w (opens fd) ≡ 0)
    × ((fd : ℕ) → w (closes fd) ≡ 0)
    × ((sock : ℕ) (m : Sent) → w (sends sock m) ≡ 0)
    × ((sock fd fd2 : Option ℕ) → w (publishes sock fd fd2) ≡ 0)

arrive_other : (w : Effect → ℕ) (i : Incoming) → IsOther w → tally w (arrive i) ≡ 0
unfolding arrive
arrive_other w (video msg fd fd2 memory dup now) h = grind arith
arrive_other w (status state error fd fd2) h = grind arith
arrive_other w (signal sc fd fd2) h = grind arith
arrive_other w (unknown fd fd2) h = grind arith

publish_each_other :
    (w : Effect → ℕ) (fs : List FrameFds) → IsOther w → tally w (publish_each fs) ≡ 0
unfolding publish_each
publish_each_other w [] h = refl
publish_each_other w (f ∷ fs) h =
    omega (arith, h.3 f.release_sock_fd f.dmabuf_fd f.dmabuf_fd2, publish_each_other w fs h)

receive_other :
    (w : Effect → ℕ) (muted api : Bool) (conn : ℕ) (h : Heard) (i : Incoming)
    → IsOther w
    → tally w (receive muted api conn h i).1 ≡ 0
unfolding receive take_frame keep_frame leased_frame send_release fds_release close_second
    release_ack
receive_other w muted api conn h (video msg fd fd2 memory dup now) o = grind arith
receive_other w muted api conn h (status state error fd fd2) o = refl
receive_other w muted api conn h (signal sc fd fd2) o = refl
receive_other w muted api conn h (unknown fd fd2) o = grind arith

pub read_messages_other :
    (w : Effect → ℕ) (muted api : Bool) (conn : ℕ) (h : Heard) (is : List Incoming)
    → IsOther w
    → tally w (read_messages muted api conn h is).1 ≡ 0
unfolding read_messages
read_messages_other w muted api conn h [] o = refl
read_messages_other w muted api conn h (i ∷ is) o =
    let (h', calls) = receive muted api conn (record h { published = [] }) i in
    let rest = (read_messages muted api conn h' is).1 in
    omega (
      arith,
      arrive_other w i o,
      receive_other w muted api conn (record h { published = [] }) i o,
      publish_each_other w h'.published o,
      read_messages_other w muted api conn h' is o,
      tally-append w (arrive i) (calls ++ (publish_each h'.published ++ rest)),
      tally-append w calls (publish_each h'.published ++ rest),
      tally-append w (publish_each h'.published) rest,
    )

receive_unpublished :
    (x : ℕ) (muted api : Bool) (conn : ℕ) (h : Heard) (i : Incoming)
    → tally (published x) (receive muted api conn h i).1 ≡ 0
unfolding receive take_frame keep_frame leased_frame send_release fds_release close_second
    release_ack
receive_unpublished x muted api conn h (video msg fd fd2 memory dup now) = ground arith
receive_unpublished x muted api conn h (status state error fd fd2) = refl
receive_unpublished x muted api conn h (signal sc fd fd2) = refl
receive_unpublished x muted api conn h (unknown fd fd2) = ground arith

-- What the loop opens or receives it closes or hands to the frame slot.
pub read_messages-kept :
    (x : ℕ) (muted api : Bool) (conn : ℕ) (h : Heard) (is : List Incoming)
    → All Apart is
    → let calls = (read_messages muted api conn h is).1 in
      tally (opened x) calls ≡ tally (closed x) calls + tally (published x) calls
unfolding read_messages
read_messages-kept x muted api conn h [] apart = refl
read_messages-kept x muted api conn h (i ∷ is) apart =
    let fresh : Heard = record h { published = [] } in
    let (h', calls) = receive muted api conn fresh i in
    let frames = publish_each h'.published in
    let rest = (read_messages muted api conn h' is).1 in
    omega (
      arith,
      receive-ReceiveKept x muted api conn fresh i apart.0,
      receive_unpublished x muted api conn fresh i,
      arrive-brought x i,
      publish_each-held x h'.published,
      read_messages-kept x muted api conn h' is apart.1,
      tally-append (opened x) (arrive i) (calls ++ (frames ++ rest)),
      tally-append (opened x) calls (frames ++ rest),
      tally-append (opened x) frames rest,
      tally-append (closed x) (arrive i) (calls ++ (frames ++ rest)),
      tally-append (closed x) calls (frames ++ rest),
      tally-append (closed x) frames rest,
      tally-append (published x) (arrive i) (calls ++ (frames ++ rest)),
      tally-append (published x) calls (frames ++ rest),
      tally-append (published x) frames rest,
    )
