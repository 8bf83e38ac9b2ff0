-- ===== src/SourceSup/Restarts.antt =====
-- How often a worker is started again, and that it is.
use sbs_server.Prelude.{
  Bool, not, ◌&&◌, is_some, ℕ, ◌+◌, ◌-◌, ◌≤◌, ◌≡◌, refl, Option, none, some, List, [], ◌∷◌, ◌++◌,
  ◌==◌, arith, if_elim, All, length,
}
use sbs_server.Effects.{Effect, forks, ends}
use sbs_server.Effects.Ledger.{tally, tally-append}
use sbs_server.SourceSup.Types.{Entry, Code, ok, inval, nomem, io, not_found}
use sbs_server.SourceSup.Worker.{
  Given, listen_on, create_listen_socket, first_accept, forked_worker, launch_with, launch_on,
  launch, cleanup_worker, schedule_restart,
}
use sbs_server.SourceSup.Messages.Reading.{IsOther}
use sbs_server.SourceSup.Ledger.Callbacks.{hear_other}
use sbs_server.SourceSup.Callbacks.{
  Ready, Ended, peer_closed, drained, broken, hear, fd_is, accept_late, lose, take_messages,
  on_frame_available, on_child_exit, on_accept_timeout, relaunched, on_restart_timer,
}
use sbs_server.SourceSup.System.{
  System, Event, socket_ready, worker_exits, accept_timeout, stable_timeout, restart_timeout,
  add_restart, on_socket, on_restart, step, run,
}
use sbs_server.SourceSup.Invariant.{SaneEvent, IsValid, down, waiting, connected, lost}
use sbs_server.SourceSup.Invariant.Steps.{step-IsValid}

-- The processes that are forked.
abbrev pub any_fork : Effect → ℕ
any_fork (forks y) = 1
any_fork _ = 0

-- The starts that are left.
abbrev pub budget : Entry → ℕ → ℕ
budget e due = 10 - e.restart_attempts + due

-- The stable timer does not fire.
abbrev pub IsUnstable : Event → Type 0
IsUnstable stable_timeout = ⊥
IsUnstable _ = Unit {0}

abbrev due_after : Option ℕ → ℕ
due_after none = 0
due_after (some delay) = 1

any_fork-IsOther : IsOther any_fork
any_fork-IsOther = (λ fd. refl, λ fd. refl, λ sock m. refl, λ sock fd fd2. refl)

abbrev NoForks : Entry → Entry × List Effect × Bool → Type 0
NoForks e r = (tally any_fork r.1 ≡ 0) × (r.0.restart_attempts ≡ e.restart_attempts)

lose-NoForks : (e : Entry) → NoForks e (lose e)
unfolding lose
lose-NoForks e = ground arith

take_messages-NoForks :
    (e : Entry) (r : Ready) (ended : Ended) → NoForks e (take_messages e r ended)
unfolding take_messages
take_messages-NoForks e r peer_closed =
    let (time, calls) = hear e r e.conn_fd in
    let timed : Entry = record e { last_frame_time = time } in
    (
      omega (
        arith,
        hear_other any_fork e r e.conn_fd any_fork-IsOther,
        lose-NoForks timed,
        tally-append any_fork calls (lose timed).1,
      ),
      (lose-NoForks timed).1,
    )
take_messages-NoForks e r drained = (hear_other any_fork e r e.conn_fd any_fork-IsOther, refl)
take_messages-NoForks e r broken = (hear_other any_fork e r e.conn_fd any_fork-IsOther, refl)

frame-forks : (e : Entry) (fd : ℕ) (r : Ready) → NoForks e (on_frame_available e fd r)
unfolding on_frame_available accept_late
frame-forks e fd r =
    if_elim (NoForks e) (not (is_some e.conn_fd) && fd_is fd e.listen_fd) (λ _. ground arith)
      (λ _.
        if_elim (NoForks e) r.hup (λ _. lose-NoForks e) (λ _. take_messages-NoForks e r r.ended))

exit-forks :
    (e : Entry) (w : Given)
    → e.restart_attempts ≤ 10
    → let (e', delay, calls) = on_child_exit e w in
      (tally any_fork calls ≡ 0) × (budget e' (due_after delay) ≤ budget e 0)
unfolding on_child_exit schedule_restart
exit-forks e w a = ground arith

abbrev LaunchForks : Entry → Code × Entry × List Effect → Type 0
LaunchForks e (ok, e', calls) =
    (tally any_fork calls ≤ 1) × (e'.restart_attempts ≡ e.restart_attempts)
LaunchForks e (code, e', calls) =
    (tally any_fork calls ≡ 0) × (e'.restart_attempts ≡ e.restart_attempts)

launch-LaunchForks : (e : Entry) (w : Given) → LaunchForks e (launch e w)
unfolding launch launch_on launch_with forked_worker first_accept create_listen_socket listen_on
launch-LaunchForks e w = ground arith

abbrev RestartForks : Entry → Entry × Option ℕ × List Effect → Type 0
RestartForks e (e', delay, calls) = tally any_fork calls + budget e' (due_after delay) ≤ budget e 1

retry-forks :
    (e : Entry) (w : Given)
    → e.restart_attempts ≤ 10
    → let (e', delay, calls) = schedule_restart e w in
      (tally any_fork calls ≡ 0) × (budget e' (due_after delay) ≤ budget e 0)
unfolding schedule_restart
retry-forks e w a = ground arith

failed-forks :
    (e e' : Entry) (w : Given) (calls : List Effect)
    → (tally any_fork calls ≡ 0) × (e'.restart_attempts ≡ e.restart_attempts)
    → e.restart_attempts ≤ 10
    → let (e'', delay, rest) = schedule_restart e' w in RestartForks e (e'', delay, calls ++ rest)
failed-forks e e' w calls h a = omega (
  arith,
  h,
  retry-forks e' w (omega (arith, h, a)),
  tally-append any_fork calls (schedule_restart e' w).2,
)

cleanup-forks :
    (e : Entry)
    → (tally any_fork (cleanup_worker e).1 ≡ 0)
      × ((cleanup_worker e).0.restart_attempts ≡ e.restart_attempts)
unfolding cleanup_worker
cleanup-forks e = ground arith

relaunched-forks :
    (e : Entry) (w : Given) (r : Code × Entry × List Effect)
    → LaunchForks e r
    → e.restart_attempts ≤ 10
    → RestartForks e (relaunched w r)
unfolding relaunched
relaunched-forks e w (ok, e', calls) h a = omega (arith, h)
relaunched-forks e w (inval, e', calls) h a = failed-forks e e' w calls h a
relaunched-forks e w (nomem, e', calls) h a = failed-forks e e' w calls h a
relaunched-forks e w (io, e', calls) h a = failed-forks e e' w calls h a
relaunched-forks e w (not_found, e', calls) h a = failed-forks e e' w calls h a

restart-forks :
    (e : Entry) (id : ℕ) (w : Given)
    → e.restart_attempts ≤ 10
    → RestartForks e (on_restart_timer e id w)
unfolding on_restart_timer
restart-forks e id w a =
    if_elim (RestartForks e) e.shutting_down (λ _. ground arith)
      (λ _.
        let (cleaned, before) = cleanup_worker e in
        let (e', delay, rest) = relaunched w (launch cleaned w) in
        let cleaning = cleanup-forks e in
        omega (
          arith,
          cleaning,
          relaunched-forks cleaned w (launch cleaned w) (launch-LaunchForks cleaned w)
              (omega (arith, cleaning, a)),
          tally-append any_fork before (rest ++ (ends id ∷ [])),
          tally-append any_fork rest (ends id ∷ []),
        ))

abbrev StepForks : System → System × List Effect → Type 0
StepForks s (s', calls) =
    tally any_fork calls + budget s'.entry (length s'.restarts) ≤ budget s.entry (length s.restarts)

length-add_restart :
    (delay : Option ℕ) (id : ℕ) (ids : List ℕ)
    → length (add_restart delay id ids) ≡ due_after delay + length ids
length-add_restart none id ids = omega arith
length-add_restart (some ms) id ids = omega arith

socket-StepForks : (s : System) (r : Ready) (fd : Option ℕ) → StepForks s (on_socket s r fd)
unfolding on_socket
socket-StepForks s r none = omega arith
socket-StepForks s r (some fd) = omega (arith, frame-forks s.entry fd r)

exit-StepForks :
    (s : System) (w : Given)
    → s.restarts ≡ []
    → s.entry.restart_attempts ≤ 10
    → StepForks s (step s (worker_exits w))
unfolding step
exit-StepForks s w none_due a =
    if_elim (StepForks s) (s.entry.child_watch_id == 0) (λ _. omega arith)
      (λ _. rw none_due (
        omega (
          arith,
          exit-forks s.entry w a,
          length-add_restart (on_child_exit s.entry w).1 w.restart_timer [],
        )))

timer-StepForks :
    (s : System) (w : Given) (ids : List ℕ)
    → s.restarts ≡ ids
    → IsValid s
    → StepForks s (on_restart s w ids)
unfolding on_restart
timer-StepForks s w [] e v = omega arith
timer-StepForks s w (id ∷ ids) e (down h) = rw e (
    omega (
      arith,
      restart-forks s.entry id w (ground (arith, h, e)),
      length-add_restart (on_restart_timer s.entry id w).1 w.restart_timer ids,
    ))
timer-StepForks s w (id ∷ ids) e (waiting h) = absurd (ground (arith, h, e))
timer-StepForks s w (id ∷ ids) e (connected h) = absurd (ground (arith, h, e))
timer-StepForks s w (id ∷ ids) e (lost h) = absurd (ground (arith, h, e))

step-StepForks : (s : System) (ev : Event) → IsUnstable ev → IsValid s → StepForks s (step s ev)
unfolding step on_accept_timeout
step-StepForks s (socket_ready r) u v =
    if_elim (StepForks s) (s.entry.io_watch_id == 0) (λ _. omega arith)
      (λ _. socket-StepForks s r s.polled)
step-StepForks s (worker_exits w) u (down h) =
    if_elim (StepForks s) (s.entry.child_watch_id == 0) (λ _. omega arith)
      (λ other. absurd (ground (arith, h.child)))
step-StepForks s (worker_exits w) u (waiting h) = exit-StepForks s w h.none_due h.attempts
step-StepForks s (worker_exits w) u (connected h) = exit-StepForks s w h.none_due h.attempts
step-StepForks s (worker_exits w) u (lost h) = exit-StepForks s w h.none_due h.attempts
step-StepForks s accept_timeout u v = ground arith
step-StepForks s stable_timeout u v = elim u [ ]
step-StepForks s (restart_timeout w) u v = timer-StepForks s w s.restarts refl v

run-StepForks :
    (s : System) (evs : List Event)
    → All SaneEvent evs
    → All IsUnstable evs
    → IsValid s
    → StepForks s (run s evs)
unfolding run
run-StepForks s [] sane u v = omega arith
run-StepForks s (ev ∷ evs) sane u v =
    let (s', calls) = step s ev in
    omega (
      arith,
      step-StepForks s ev u.0 v,
      run-StepForks s' evs sane.1 u.1 (step-IsValid s ev sane.0 v),
      tally-append any_fork calls (run s' evs).1,
    )

-- While the stable timer does not fire, a valid entry's worker is started at most as often as starts
-- are left: ten less the failures counted, and the restart that is due. The kernel's answers are sane.
pub run-budget :
    (s : System) (evs : List Event)
    → All SaneEvent evs
    → All IsUnstable evs
    → IsValid s
    → tally any_fork (run s evs).1 ≤ 10 - s.entry.restart_attempts + length s.restarts
run-budget s evs sane u v = omega (arith, run-StepForks s evs sane u v)
