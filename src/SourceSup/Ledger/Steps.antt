-- ===== src/SourceSup/Ledger/Steps.antt =====
-- The ledger over every event.
use sbs_server.Prelude.{
  ℕ, ◌+◌, ◌≡◌, ◌≢◌, refl, Option, none, some, List, [], ◌∷◌, ◌++◌, ◌==◌, arith, if_elim, All,
  ==_iff,
}
use sbs_server.Effects.{Effect}
use sbs_server.Effects.Ledger.{
  tally, tally-append, is_it, opened, closed, forked, reaped, added, removed,
}
use sbs_server.FrameSlot.Release.{published}
use sbs_server.SourceSup.Messages.Loop.{Apart}
use sbs_server.SourceSup.Types.{Entry}
use sbs_server.SourceSup.Worker.{Given, entry_free}
use sbs_server.SourceSup.Callbacks.{Ready, on_child_exit, on_restart_timer}
use sbs_server.SourceSup.System.{
  System, Event, socket_ready, worker_exits, accept_timeout, stable_timeout, restart_timeout,
  add_restart, on_socket, on_restart, step, run,
}
use sbs_server.SourceSup.Invariant.{SaneEvent, IsValid, down, waiting, connected, lost}
use sbs_server.SourceSup.Invariant.Steps.{step-IsValid}
use sbs_server.SourceSup.Ledger.{Kept, Kept-append, count, fds, procs, sources}
use sbs_server.SourceSup.Ledger.Callbacks.{
  on_frame_available-Kept, on_child_exit-Kept, on_accept_timeout-Kept, on_stable_timer-Kept,
}
use sbs_server.SourceSup.Ledger.Launch.{on_restart_timer-KeptOut}

-- The messages of an event bring two different descriptors or fewer each, and none with a status or a
-- signal change, which the code would not close.
abbrev pub IsTidy : Event → Type 0
IsTidy (socket_ready r) = All Apart r.messages
IsTidy _ = Unit {0}

abbrev pub StepKept : ℕ → System → System × List Effect → Type 0
StepKept x s (s', calls) = Kept x (count x s.restarts) s.entry (count x s'.restarts) s'.entry calls

-- With other restart timers beside.
timers_add :
    (x id : ℕ) (delay : Option ℕ) (ids : List ℕ)
    → count x (add_restart delay id ids) ≡ count x (add_restart delay id []) + count x ids
timers_add x id none ids = omega arith
timers_add x id (some ms) ids = omega arith

Kept-beside :
    (x n k n' m : ℕ) (e e' : Entry) (calls : List Effect)
    → Kept x n e n' e' calls
    → m ≡ n' + k
    → Kept x (n + k) e m e' calls
Kept-beside x n k n' m e e' calls h q = omega (arith, h, q)

polled-IsFresh :
    (s : System)
    → IsValid s
    → s.entry.io_watch_id ≢ 0
    → s.entry.conn_fd ≡ none
    → s.entry.stable_timer_id ≡ 0
polled-IsFresh s (down h) on c = absurd (on h.io)
polled-IsFresh s (waiting h) on c = h.stable
polled-IsFresh s (connected h) on c = absurd (h.conn c)
polled-IsFresh s (lost h) on c = absurd (on h.io)

socket-StepKept :
    (x : ℕ) (s : System) (r : Ready) (fd : Option ℕ)
    → x ≢ 0
    → IsValid s
    → All Apart r.messages
    → s.entry.io_watch_id ≢ 0
    → StepKept x s (on_socket s r fd)
unfolding on_socket
socket-StepKept x s r none real v apart on = ground arith
socket-StepKept x s r (some fd) real v apart on =
    omega (arith, on_frame_available-Kept x s.entry fd r real apart (polled-IsFresh s v on))

restart-StepKept :
    (x : ℕ) (s : System) (w : Given) (ids : List ℕ)
    → x ≢ 0
    → IsValid s
    → s.restarts ≡ ids
    → StepKept x s (on_restart s w ids)
unfolding on_restart
restart-StepKept x s w [] real v due = ground arith
restart-StepKept x s w (id ∷ ids) real (down h) due =
    let (e, delay, calls) = on_restart_timer s.entry id w in
    rw due (
      Kept-beside x (is_it x id) (count x ids) (count x (add_restart delay w.restart_timer []))
        (count x (add_restart delay w.restart_timer ids)) s.entry e calls
        (on_restart_timer-KeptOut x s.entry id w real h.pid (ground (arith, h, due)))
        (timers_add x w.restart_timer delay ids))
restart-StepKept x s w (id ∷ ids) real (waiting h) due = absurd (ground (arith, h, due))
restart-StepKept x s w (id ∷ ids) real (connected h) due = absurd (ground (arith, h, due))
restart-StepKept x s w (id ∷ ids) real (lost h) due = absurd (ground (arith, h, due))

pub step-StepKept :
    (x : ℕ) (s : System) (ev : Event) → x ≢ 0 → IsTidy ev → IsValid s → StepKept x s (step s ev)
unfolding step
step-StepKept x s (socket_ready r) real tidy v =
    if_elim (StepKept x s) (s.entry.io_watch_id == 0) (λ _. ground arith)
      (λ on.
        socket-StepKept x s r s.polled real v tidy
          (λ e. absurd (ground (arith, ==_iff s.entry.io_watch_id 0))))
step-StepKept x s (worker_exits w) real tidy v =
    if_elim (StepKept x s) (s.entry.child_watch_id == 0) (λ _. ground arith)
      (λ _.
        let (e, delay, calls) = on_child_exit s.entry w in
        omega (
          arith,
          on_child_exit-Kept x s.entry w real,
          timers_add x w.restart_timer delay s.restarts,
        ))
step-StepKept x s accept_timeout real tidy v =
    if_elim (StepKept x s) (s.entry.accept_timer_id == 0) (λ _. ground arith)
      (λ _. omega (arith, on_accept_timeout-Kept x s.entry real))
step-StepKept x s stable_timeout real tidy v =
    if_elim (StepKept x s) (s.entry.stable_timer_id == 0) (λ _. ground arith)
      (λ _. omega (arith, on_stable_timer-Kept x s.entry real))
step-StepKept x s (restart_timeout w) real tidy v = restart-StepKept x s w s.restarts real v refl

pub run-StepKept :
    (x : ℕ) (s : System) (evs : List Event)
    → x ≢ 0
    → All SaneEvent evs
    → All IsTidy evs
    → IsValid s
    → StepKept x s (run s evs)
unfolding run
run-StepKept x s [] real sane tidy v = ground arith
run-StepKept x s (ev ∷ evs) real sane tidy v =
    let (s', calls) = step s ev in
    let (s'', rest) = run s' evs in
    Kept-append x (count x s.restarts) (count x s'.restarts) (count x s''.restarts) s.entry s'.entry
      s''.entry calls rest (step-StepKept x s ev real tidy.0 v)
      (run-StepKept x s' evs real sane.1 tidy.1 (step-IsValid s ev sane.0 v))

pub entry_free-gone :
    (x : ℕ) (e : Entry)
    → x ≢ 0
    → (tally (closed x) (entry_free e) ≡ fds x e)
      × (tally (reaped x) (entry_free e) ≡ procs x e)
      × (tally (removed x) (entry_free e) ≡ sources x e)
unfolding entry_free
entry_free-gone x e real = ground arith

pub entry_free_quiet :
    (x : ℕ) (e : Entry)
    → (tally (opened x) (entry_free e) ≡ 0)
      × (tally (forked x) (entry_free e) ≡ 0)
      × (tally (added x) (entry_free e) ≡ 0)
      × (tally (published x) (entry_free e) ≡ 0)
unfolding entry_free
entry_free_quiet x e = ground arith

-- From a valid entry, whatever events follow with sane answers, and the entry is then freed. No message
-- brings one descriptor twice, and none comes with a status or a signal change. Then, of the numbers
-- other than 0: every descriptor held, opened, duplicated or received with a message is closed or goes to
-- the frame slot with a published frame, just as often; every process held or forked is reaped just as
-- often; and of the event sources held or made just the restart timers that are then due are left.
pub run-entry_free :
    (x : ℕ) (s : System) (evs : List Event)
    → x ≢ 0
    → All SaneEvent evs
    → All IsTidy evs
    → IsValid s
    → let (s', calls) = run s evs in
      let whole = calls ++ entry_free s'.entry in
      (fds x s.entry + tally (opened x) whole ≡ tally (closed x) whole + tally (published x) whole)
      × (procs x s.entry + tally (forked x) calls ≡ tally (reaped x) whole)
      × (sources x s.entry + count x s.restarts + tally (added x) calls
          ≡ tally (removed x) whole + count x s'.restarts)
run-entry_free x s evs real sane tidy v =
    let (s', calls) = run s evs in
    let freed = entry_free s'.entry in
    omega (
      arith,
      run-StepKept x s evs real sane tidy v,
      entry_free-gone x s'.entry real,
      entry_free_quiet x s'.entry,
      tally-append (opened x) calls freed,
      tally-append (published x) calls freed,
      tally-append (closed x) calls freed,
      tally-append (reaped x) calls freed,
      tally-append (removed x) calls freed,
    )
