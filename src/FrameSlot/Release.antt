-- ===== src/FrameSlot/Release.antt =====
-- `sbs_frame_fds_t` and `sbs_frame_fds_release`, the callback with which a source's slot gives up a
-- frame. A descriptor below 0 is `none`.
use sbs_server.Prelude.{
  ℕ, ◌+◌, ◌≡◌, Bool, true, false, Option, none, some, List, [], ◌∷◌, ◌++◌, arith, if◌then◌else◌,
  ◌==◌,
}
use sbs_server.Effects.{Effect, publishes, closes, sends, frame_release}
use sbs_server.Effects.Ledger.{tally, holds, is_it, closed}

-- `sbs_frame_fds_t`
pub record FrameFds : Type 0 where
  pub dmabuf_fd : Option ℕ
  pub dmabuf_fd2 : Option ℕ
  pub release_sock_fd : Option ℕ
  pub release_sequence : ℕ
  pub needs_release_ack : Bool

-- `if (fd >= 0) close(fd)`
abbrev pub close_fd : Option ℕ → List Effect
close_fd none = []
close_fd (some fd) = closes fd ∷ []

-- The second descriptor is closed unless it is the first.
unfoldable pub close_second : Option ℕ → Option ℕ → List Effect
close_second fd none = []
close_second none (some fd2) = closes fd2 ∷ []
close_second (some fd) (some fd2) = if fd2 == fd then [] else closes fd2 ∷ []

unfoldable pub release_ack : Bool → Option ℕ → ℕ → List Effect
release_ack true (some sock) sequence = sends sock (frame_release sequence) ∷ closes sock ∷ []
release_ack _ _ sequence = []

-- `sbs_frame_fds_release`, of a frame other than NULL.
unfoldable pub fds_release : FrameFds → List Effect
unfolding close_second release_ack
fds_release f =
    release_ack f.needs_release_ack f.release_sock_fd f.release_sequence
    ++ (close_fd f.dmabuf_fd ++ close_second f.dmabuf_fd f.dmabuf_fd2)

-- The descriptors that a frame has: each once.
abbrev pub second_held : ℕ → Option ℕ → Option ℕ → ℕ
second_held x fd none = 0
second_held x none (some fd2) = is_it x fd2
second_held x (some fd) (some fd2) = if fd2 == fd then 0 else is_it x fd2

abbrev pub fds_held : ℕ → FrameFds → ℕ
fds_held x f =
    holds x f.release_sock_fd + (holds x f.dmabuf_fd + second_held x f.dmabuf_fd f.dmabuf_fd2)

-- The descriptors that go to the frame slot with published frames.
abbrev pub published : ℕ → Effect → ℕ
published x (publishes sock fd fd2) = holds x sock + (holds x fd + second_held x fd fd2)
published x _ = 0

-- A socket for the acknowledgement is there only if one is due.
abbrev pub IsDue : FrameFds → Type 0
IsDue f = elim f.release_sock_fd as (λ _. Type 0) [
  | none ↦ Unit {0}
  | some s ↦ f.needs_release_ack ≡ true
]

closed-release :
    (x : ℕ) (ack : Bool) (sock : Option ℕ) (sequence : ℕ) (rest : List Effect)
    → elim sock as (λ _. Type 0) [ none ↦ Unit {0} | some s ↦ ack ≡ true ]
    → tally (closed x) (release_ack ack sock sequence ++ rest)
      ≡ holds x sock + tally (closed x) rest
unfolding release_ack
closed-release x true none sequence rest h = omega arith
closed-release x false none sequence rest h = omega arith
closed-release x true (some s) sequence rest h = omega arith
closed-release x false (some s) sequence rest h = cc

closed-frames :
    (x : ℕ) (fd fd2 : Option ℕ)
    → tally (closed x) (close_fd fd ++ close_second fd fd2) ≡ holds x fd + second_held x fd fd2
unfolding close_second
closed-frames x none none = omega arith
closed-frames x none (some b) = ground arith
closed-frames x (some a) none = ground arith
closed-frames x (some a) (some b) = ground arith

-- Releasing a frame that has a socket only if an acknowledgement is due closes each descriptor that it
-- has exactly once, and no other.
pub fds_release-fds_held :
    (x : ℕ) (f : FrameFds) → IsDue f → tally (closed x) (fds_release f) ≡ fds_held x f
unfolding fds_release
fds_release-fds_held x f due = omega (
  arith,
  closed-release x f.needs_release_ack f.release_sock_fd f.release_sequence
      (close_fd f.dmabuf_fd ++ close_second f.dmabuf_fd f.dmabuf_fd2) due,
  closed-frames x f.dmabuf_fd f.dmabuf_fd2,
)
