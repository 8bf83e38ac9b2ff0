-- ===== src/SourceSup/Ledger.antt =====
-- What an entry holds of descriptors, processes and event sources, against the calls it makes.
pub mod Callbacks
pub mod Launch
pub mod Steps
use sbs_server.Prelude.{ℕ, ◌+◌, ◌≡◌, Option, List, [], ◌∷◌, ◌++◌, arith}
use sbs_server.Effects.{Effect}
use sbs_server.Effects.Ledger.{
  tally, tally-append, holds, is_it, opened, closed, forked, reaped, added, removed,
}
use sbs_server.FrameSlot.Release.{published}
use sbs_server.SourceSup.Types.{Entry}
use sbs_server.SourceSup.System.{add_restart}

-- How often the entry holds the descriptor, the process, the event source `x`.
abbrev pub fds : ℕ → Entry → ℕ
fds x e = holds x e.listen_fd + holds x e.conn_fd

abbrev pub procs : ℕ → Entry → ℕ
procs x e = is_it x e.pid

abbrev pub sources : ℕ → Entry → ℕ
sources x e =
    is_it x e.io_watch_id
    + is_it x e.child_watch_id
    + is_it x e.accept_timer_id
    + is_it x e.stable_timer_id

abbrev pub count : ℕ → List ℕ → ℕ
count x [] = 0
count x (y ∷ ys) = is_it x y + count x ys

-- Held before and acquired is held afterwards and given up: a descriptor is closed or goes to the frame
-- slot. 0 is no process and no event source.
abbrev pub FdsKept : ℕ → Entry → Entry → List Effect → Type 0
FdsKept x e e' calls =
    fds x e + tally (opened x) calls ≡ fds x e' + tally (closed x) calls + tally (published x) calls

abbrev pub ProcsKept : ℕ → Entry → Entry → List Effect → Type 0
ProcsKept x e e' calls = procs x e + tally (forked x) calls ≡ procs x e' + tally (reaped x) calls

abbrev pub SourcesKept : ℕ → ℕ → Entry → ℕ → Entry → List Effect → Type 0
SourcesKept x n e n' e' calls =
    sources x e + n + tally (added x) calls ≡ sources x e' + n' + tally (removed x) calls

-- The three together; `n` and `n'` restart timers are `x`.
abbrev pub Kept : ℕ → ℕ → Entry → ℕ → Entry → List Effect → Type 0
Kept x n e n' e' calls =
    FdsKept x e e' calls × ProcsKept x e e' calls × SourcesKept x n e n' e' calls

-- The same for a function that may set a restart timer.
abbrev pub KeptOut : ℕ → ℕ → Entry → ℕ → Entry × Option ℕ × List Effect → Type 0
KeptOut x n e id (e', delay, calls) = Kept x n e (count x (add_restart delay id [])) e' calls

-- One after the other.
pub Kept-append :
    (x n n' n'' : ℕ) (e e' e'' : Entry) (calls calls' : List Effect)
    → Kept x n e n' e' calls
    → Kept x n' e' n'' e'' calls'
    → Kept x n e n'' e'' (calls ++ calls')
Kept-append x n n' n'' e e' e'' calls calls' first second = omega (
  arith,
  first,
  second,
  tally-append (opened x) calls calls',
  tally-append (closed x) calls calls',
  tally-append (published x) calls calls',
  tally-append (forked x) calls calls',
  tally-append (reaped x) calls calls',
  tally-append (added x) calls calls',
  tally-append (removed x) calls calls',
)
