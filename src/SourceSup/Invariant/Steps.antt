-- ===== src/SourceSup/Invariant/Steps.antt =====
-- The invariant over a restart, and over every event.
use sbs_server.Prelude.{ℕ, ◌≤◌, ◌≡◌, refl, Option, List, [], ◌∷◌, arith, All, if_elim}
use sbs_server.Effects.{Effect}
use sbs_server.SourceSup.Types.{Entry, Code, ok, io, inval, nomem, not_found}
use sbs_server.SourceSup.Worker.{Given, launch, cleanup_worker, schedule_restart}
use sbs_server.SourceSup.Callbacks.{relaunched, on_restart_timer}
use sbs_server.SourceSup.System.{
  System, Event, socket_ready, worker_exits, accept_timeout, stable_timeout, restart_timeout,
  watched_fd, add_restart, on_restart, step, run,
}
use sbs_server.SourceSup.Invariant.{
  Sane, SaneEvent, IsDown, IsValid, down, waiting, connected, lost,
}
use sbs_server.SourceSup.Invariant.Timers.{
  accept_timeout-IsValid, stable_timeout-IsValid, schedule_restart-IsDown, worker_exits-IsValid,
}
use sbs_server.SourceSup.Invariant.Socket.{socket_ready-IsValid}
use sbs_server.SourceSup.Invariant.Launch.{LaunchOk, launch-LaunchOk, cleaned-IsClean}

-- What a restart timer leaves.
abbrev RestartOk : Given → Entry × Option ℕ × List Effect → Type 0
RestartOk w (e, delay, calls) =
    IsValid
      (record { entry = e; polled = watched_fd e; restarts = add_restart delay w.restart_timer [] })

failed-RestartOk :
    (w : Given) (e : Entry) (calls : List Effect)
    → IsDown e [] × (e.restart_attempts ≤ 10)
    → RestartOk w ((schedule_restart e w).0, (schedule_restart e w).1, calls)
failed-RestartOk w e calls (h, a) =
    down (schedule_restart-IsDown e w h.pid h.child h.listen h.conn h.io a)

relaunched-RestartOk :
    (w : Given) (r : Code × Entry × List Effect) → LaunchOk r → RestartOk w (relaunched w r)
unfolding relaunched
relaunched-RestartOk w (ok, e, calls) h = h
relaunched-RestartOk w (inval, e, calls) h = failed-RestartOk w e [] h
relaunched-RestartOk w (nomem, e, calls) h = failed-RestartOk w e [] h
relaunched-RestartOk w (io, e, calls) h = failed-RestartOk w e [] h
relaunched-RestartOk w (not_found, e, calls) h = failed-RestartOk w e [] h

on_restart_timer-RestartOk :
    (e : Entry) (w : Given) (id : ℕ)
    → IsDown e (id ∷ [])
    → Sane w
    → RestartOk w (on_restart_timer e id w)
unfolding on_restart_timer
on_restart_timer-RestartOk e w id h sane =
    if_elim (RestartOk w) e.shutting_down (λ _. down (ground (arith, h)))
      (λ _.
        relaunched-RestartOk w (launch (cleanup_worker e).0 w)
          (launch-LaunchOk (cleanup_worker e).0 w (cleaned-IsClean e (ground (arith, h))) sane))

restart-IsValid :
    (s : System) (w : Given) (ids : List ℕ)
    → s.restarts ≡ ids
    → Sane w
    → IsValid s
    → IsValid (on_restart s w ids).0
unfolding on_restart
restart-IsValid s w [] e sane v = v
restart-IsValid s w (id ∷ []) e sane (down h) =
    on_restart_timer-RestartOk s.entry w id (rw e at h) sane
restart-IsValid s w (id ∷ id' ∷ ids) e sane (down h) = absurd (ground (arith, h))
restart-IsValid s w (id ∷ ids) e sane (waiting h) = absurd (ground (arith, h))
restart-IsValid s w (id ∷ ids) e sane (connected h) = absurd (ground (arith, h))
restart-IsValid s w (id ∷ ids) e sane (lost h) = absurd (ground (arith, h))

-- Every event, with sane answers of the kernel, keeps the invariant.
pub step-IsValid : (s : System) (ev : Event) → SaneEvent ev → IsValid s → IsValid (step s ev).0
unfolding step
step-IsValid s (socket_ready r) sane v = socket_ready-IsValid s r sane v
step-IsValid s (worker_exits w) sane v = worker_exits-IsValid s w v
step-IsValid s accept_timeout sane v = accept_timeout-IsValid s v
step-IsValid s stable_timeout sane v = stable_timeout-IsValid s v
step-IsValid s (restart_timeout w) sane v = restart-IsValid s w s.restarts refl sane v

-- Whatever callbacks the main loop makes, with sane answers of the kernel, a valid entry stays valid.
pub run-IsValid :
    (s : System) (evs : List Event) → All SaneEvent evs → IsValid s → IsValid (run s evs).0
unfolding run
run-IsValid s [] sane v = v
run-IsValid s (ev ∷ evs) sane v = run-IsValid (step s ev).0 evs sane.1 (step-IsValid s ev sane.0 v)
