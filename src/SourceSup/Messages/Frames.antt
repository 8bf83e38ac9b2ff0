-- ===== src/SourceSup/Messages/Frames.antt =====
-- The descriptors of a received frame, and its acknowledgement.
use sbs_server.Prelude.{ℕ, ◌+◌, ◌≡◌, ◌≢◌, Bool, Option, none, some, List, if◌then◌else◌, arith}
use sbs_server.Effects.{Effect, sends, frame_release}
use sbs_server.Effects.Ledger.{tally, holds, is_it, opened, closed}
use sbs_server.FrameSlot.Release.{FrameFds, close_second, release_ack, fds_release, fds_held}
use sbs_server.Ipc.Transport.{VideoFrame}
use sbs_server.SourceSup.Messages.{
  drop_unknown, needs_release, send_release, leased_frame, keep_frame, take_frame,
}

-- The descriptors of a frame that is published.
abbrev pub published_fds : ℕ → Option FrameFds → ℕ
published_fds x none = 0
published_fds x (some f) = fds_held x f

-- The acknowledgements of the frame with the number `n` that are sent, and those that its release
-- will send.
abbrev pub acks : ℕ → Effect → ℕ
acks n (sends sock (frame_release m)) = is_it n m
acks n _ = 0

abbrev pub acks_due : ℕ → Option FrameFds → ℕ
acks_due n none = 0
acks_due n (some f) = tally (acks n) (fds_release f)

-- The two descriptors of a message are not the same.
abbrev pub AreApart : Option ℕ → Option ℕ → Type 0
AreApart (some fd) (some fd2) = fd ≢ fd2
AreApart _ _ = Unit {0}

abbrev Accounts : ℕ → Option ℕ → Option ℕ → Option FrameFds × List Effect → Type 0
Accounts x fd fd2 (f, calls) =
    holds x fd + holds x fd2 + tally (opened x) calls ≡ published_fds x f + tally (closed x) calls

take_frame-Accounts :
    (x : ℕ) (muted : Bool) (conn : Option ℕ) (msg : VideoFrame) (fd fd2 : Option ℕ) (memory : Bool)
    (dup : Option ℕ)
    → AreApart fd fd2
    → Accounts x fd fd2 (take_frame muted conn msg fd fd2 memory dup)
unfolding take_frame keep_frame leased_frame send_release fds_release close_second release_ack
take_frame-Accounts x muted conn msg none none memory dup apart = ground arith
take_frame-Accounts x muted conn msg none (some b) memory dup apart = ground arith
take_frame-Accounts x muted conn msg (some a) none memory dup apart = ground arith
take_frame-Accounts x muted conn msg (some a) (some b) memory dup apart = ground arith

abbrev Acknowledges : VideoFrame → Option FrameFds × List Effect → Type 0
Acknowledges msg (f, calls) =
    tally (acks msg.sequence) calls + acks_due msg.sequence f ≡ (if needs_release msg then 1 else 0)

take_frame-Acknowledges :
    (sock : ℕ) (muted : Bool) (msg : VideoFrame) (fd fd2 : Option ℕ) (memory : Bool)
    (dup : Option ℕ)
    → Acknowledges msg (take_frame muted (some sock) msg fd fd2 memory dup)
unfolding take_frame keep_frame leased_frame send_release fds_release close_second release_ack
take_frame-Acknowledges sock muted msg none none memory dup = ground arith
take_frame-Acknowledges sock muted msg none (some b) memory dup = ground arith
take_frame-Acknowledges sock muted msg (some a) none memory dup = ground arith
take_frame-Acknowledges sock muted msg (some a) (some b) memory dup = ground arith

-- A frame arrives on a connection with two descriptors that are not the same, or fewer. Whether the
-- source is muted, and whatever memory and `dup` give: each descriptor that arrived or that `dup`
-- opened is closed or in the frame that is published, once; and a frame that asks for it is
-- acknowledged once, now or by the release of what is published, any other never.
pub take_frame-whole :
    (x sock : ℕ) (muted : Bool) (msg : VideoFrame) (fd fd2 : Option ℕ) (memory : Bool)
    (dup : Option ℕ)
    → AreApart fd fd2
    → let (f, calls) = take_frame muted (some sock) msg fd fd2 memory dup in
      (holds x fd + holds x fd2 + tally (opened x) calls
        ≡ published_fds x f + tally (closed x) calls)
      × (tally (acks msg.sequence) calls + acks_due msg.sequence f
          ≡ (if needs_release msg then 1 else 0))
take_frame-whole x sock muted msg fd fd2 memory dup apart = (
  take_frame-Accounts x muted (some sock) msg fd fd2 memory dup apart,
  take_frame-Acknowledges sock muted msg fd fd2 memory dup,
)

-- The descriptors of an unknown message are closed.
pub drop_unknown-closed :
    (x : ℕ) (fd fd2 : Option ℕ)
    → AreApart fd fd2
    → (tally (closed x) (drop_unknown fd fd2) ≡ holds x fd + holds x fd2)
      × (tally (opened x) (drop_unknown fd fd2) ≡ 0)
unfolding close_second
drop_unknown-closed x none none apart = ground arith
drop_unknown-closed x none (some b) apart = ground arith
drop_unknown-closed x (some a) none apart = ground arith
drop_unknown-closed x (some a) (some b) apart = ground arith
