-- ===== src/SourceSup/Invariant/Timers.antt =====
-- The invariant over the timers of an entry and the end of its worker.
use sbs_server.Prelude.{◌≤◌, ◌≡◌, refl, none, [], ◌==◌, arith, if_elim, inl, inr, Bool-cases}
use sbs_server.SourceSup.Types.{Entry}
use sbs_server.SourceSup.Worker.{Given, schedule_restart}
use sbs_server.SourceSup.Callbacks.{on_child_exit, on_accept_timeout, on_stable_timer}
use sbs_server.SourceSup.System.{
  System, worker_exits, accept_timeout, stable_timeout, add_restart, step,
}
use sbs_server.SourceSup.Invariant.{IsDown, IsValid, down, waiting, connected, lost, StepOk}

pub accept_timeout-IsValid : (s : System) → IsValid s → IsValid (step s accept_timeout).0
unfolding step on_accept_timeout
accept_timeout-IsValid s (down h) = down (ground (arith, h))
accept_timeout-IsValid s (waiting h) = waiting (ground (arith, h))
accept_timeout-IsValid s (connected h) = connected (ground (arith, h))
accept_timeout-IsValid s (lost h) = lost (ground (arith, h))

pub stable_timeout-IsValid : (s : System) → IsValid s → IsValid (step s stable_timeout).0
unfolding step on_stable_timer
stable_timeout-IsValid s (down h) = down (ground (arith, h))
stable_timeout-IsValid s (waiting h) = waiting (ground (arith, h))
stable_timeout-IsValid s (connected h) = connected (ground (arith, h))
stable_timeout-IsValid s (lost h) = lost (ground (arith, h))

pub schedule_restart-IsDown :
    (e : Entry) (w : Given)
    → e.pid ≡ 0
    → e.child_watch_id ≡ 0
    → e.listen_fd ≡ none
    → e.conn_fd ≡ none
    → e.io_watch_id ≡ 0
    → e.restart_attempts ≤ 10
    → let (e', delay, calls) = schedule_restart e w in
      IsDown e' (add_restart delay w.restart_timer [])
unfolding schedule_restart
schedule_restart-IsDown e w p c l k i a = ground (arith)

-- A worker that ended, with no restart due: the entry is down, and a restart is due or not.
child_exit-IsDown :
    (e : Entry) (w : Given)
    → e.restart_attempts ≤ 10
    → let (e', delay, calls) = on_child_exit e w in IsDown e' (add_restart delay w.restart_timer [])
unfolding on_child_exit
child_exit-IsDown e w a = elim (Bool-cases e.shutting_down) [
  | inl closing ↦ rw closing (record {
    pid = refl;
    child = refl;
    listen = refl;
    conn = refl;
    io = refl;
    one = omega arith;
    attempts = omega arith;
  })
  | inr running ↦ rw running (schedule_restart-IsDown _ w refl refl refl refl refl a)
]

exits_due :
    (s : System) (w : Given)
    → IsValid s
    → s.restarts ≡ []
    → s.entry.restart_attempts ≤ 10
    → IsValid (step s (worker_exits w)).0
unfolding step
exits_due s w v due a =
    if_elim StepOk (s.entry.child_watch_id == 0) (λ _. v)
      (λ _. down (rw due (child_exit-IsDown s.entry w a)))

pub worker_exits-IsValid :
    (s : System) (w : Given) → IsValid s → IsValid (step s (worker_exits w)).0
unfolding step
worker_exits-IsValid s w (down h) =
    if_elim StepOk (s.entry.child_watch_id == 0) (λ _. down h)
      (λ other. absurd (ground (arith, h.child)))
worker_exits-IsValid s w (waiting h) = exits_due s w (waiting h) h.none_due h.attempts
worker_exits-IsValid s w (connected h) = exits_due s w (connected h) h.none_due h.attempts
worker_exits-IsValid s w (lost h) = exits_due s w (lost h) h.none_due h.attempts
