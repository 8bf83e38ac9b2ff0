-- ===== src/SourceSup/Recovery.antt =====
-- A worker that ends is started again.
use sbs_server.Prelude.{
  ℕ, ◌+◌, ◌<◌, ◌≡◌, ◌≢◌, refl, ◌∙◌, ap, true, false, Option, none, some, List, [], ◌∷◌, ◌==◌, arith,
  if_elim, ==_iff,
}
use sbs_server.Effects.{Effect}
use sbs_server.SourceSup.Types.{Entry, Code, ok}
use sbs_server.SourceSup.Backoff.{jittered, plain_delay}
use sbs_server.SourceSup.Worker.{
  Given, listen_on, create_listen_socket, first_accept, forked_worker, launch_with, launch_on,
  launch, cleanup_worker, schedule_restart,
}
use sbs_server.SourceSup.Callbacks.{on_child_exit, relaunched, on_restart_timer}
use sbs_server.SourceSup.System.{System, worker_exits, restart_timeout, on_restart, step}
use sbs_server.SourceSup.Invariant.{IsValid, down, waiting, connected, lost}

-- Every call of a launch succeeds, and the worker is the process `pid`.
pub record IsGood (w : Given) (pid : ℕ) : Type 0 where
  pub socket : w.socket ≢ none
  pub bind_ok : w.bind_ok ≡ true
  pub listen_ok : w.listen_ok ≡ true
  pub pipe : w.pipe ≢ none
  pub fork : w.fork ≡ some pid

create-good :
    (e : Entry) (w : Given) (pid : ℕ)
    → IsGood w pid
    → (create_listen_socket e.socket_path w).0 ≢ none
unfolding create_listen_socket listen_on
create-good e w pid h = ground (arith, h)

launch_on-good :
    (e : Entry) (w : Given) (pid : ℕ) (fd : Option ℕ)
    → IsGood w pid
    → fd ≢ none
    → ((launch_on e w fd).0 ≡ ok) × ((launch_on e w fd).1.pid ≡ pid)
unfolding launch_on launch_with forked_worker first_accept
launch_on-good e w pid none h some_fd = absurd (some_fd refl)
launch_on-good e w pid (some fd) h some_fd = ground (arith, h)

launch-good :
    (e : Entry) (w : Given) (pid : ℕ)
    → IsGood w pid
    → ((launch e w).0 ≡ ok) × ((launch e w).1.pid ≡ pid)
unfolding launch
launch-good e w pid h =
    launch_on-good e w pid (create_listen_socket e.socket_path w).0 h (create-good e w pid h)

relaunched-ok : (w : Given) (r : Code × Entry × List Effect) → r.0 ≡ ok → (relaunched w r).0 ≡ r.1
unfolding relaunched
relaunched-ok w r h = ground (arith, h)

abbrev IsRunning : ℕ → Entry × Option ℕ × List Effect → Type 0
IsRunning pid r = r.0.pid ≡ pid

restarted-pid :
    (e : Entry) (id : ℕ) (w : Given) (pid : ℕ)
    → e.shutting_down ≡ false
    → IsGood w pid
    → (on_restart_timer e id w).0.pid ≡ pid
unfolding on_restart_timer
restarted-pid e id w pid h good =
    let (code, alive) = launch-good (cleanup_worker e).0 w pid good in
    if_elim (IsRunning pid) e.shutting_down (λ closing. cc)
      (λ _. ap (λ e'. e'.pid) (relaunched-ok w (launch (cleanup_worker e).0 w) code) ∙ alive)

no_timer : (s : System) → IsValid s → s.entry.child_watch_id ≢ 0 → s.restarts ≡ []
no_timer s (down h) alive = absurd (alive h.child)
no_timer s (waiting h) alive = h.none_due
no_timer s (connected h) alive = h.none_due
no_timer s (lost h) alive = h.none_due

exited :
    (e : Entry) (w : Given)
    → e.shutting_down ≡ false
    → e.restart_attempts < 10
    → let (e', delay, calls) = on_child_exit e w in
      (e'.shutting_down ≡ false)
      × (e'.pid ≡ 0)
      × (delay ≡ some (jittered (plain_delay (e.restart_attempts + 1)) w.jitter w.add))
unfolding on_child_exit schedule_restart
exited e w h a = ground arith

abbrev IsDue : ℕ → System × List Effect → Type 0
IsDue id r = (r.0.entry.shutting_down ≡ false) × (r.0.entry.pid ≡ 0) × (r.0.restarts ≡ id ∷ [])

exits-due :
    (s : System) (w : Given)
    → s.restarts ≡ []
    → s.entry.child_watch_id ≢ 0
    → s.entry.shutting_down ≡ false
    → s.entry.restart_attempts < 10
    → let s' = (step s (worker_exits w)).0 in
      (s'.entry.shutting_down ≡ false) × (s'.entry.pid ≡ 0) × (s'.restarts ≡ w.restart_timer ∷ [])
unfolding step
exits-due s w idle alive open_ a =
    if_elim (IsDue w.restart_timer) (s.entry.child_watch_id == 0)
      (λ zero. absurd (alive ((==_iff s.entry.child_watch_id 0).0 zero)))
      (λ _. let (up, gone, delay) = exited s.entry w open_ a in (up, gone, rw (delay, idle) refl))

fires-pid :
    (s : System) (id : ℕ) (w : Given) (pid : ℕ)
    → s.restarts ≡ id ∷ []
    → s.entry.shutting_down ≡ false
    → IsGood w pid
    → (step s (restart_timeout w)).0.entry.pid ≡ pid
unfolding step on_restart
fires-pid s id w pid due open_ good = rw due (restarted-pid s.entry id w pid open_ good)

-- A worker of a valid entry ends, with fewer than ten failures counted and no shutdown asked for: then
-- a restart timer is due, and when it fires and the calls of the launch succeed, the source has the
-- new worker process.
pub exit-restart :
    (s : System) (w w' : Given) (pid : ℕ)
    → IsValid s
    → s.entry.child_watch_id ≢ 0
    → s.entry.shutting_down ≡ false
    → s.entry.restart_attempts < 10
    → IsGood w' pid
    → let s' = (step s (worker_exits w)).0 in
      let s'' = (step s' (restart_timeout w')).0 in
      (s'.entry.pid ≡ 0) × (s'.restarts ≡ w.restart_timer ∷ []) × (s''.entry.pid ≡ pid)
exit-restart s w w' pid v alive open_ a good =
    let s' = (step s (worker_exits w)).0 in
    let (up, gone, due) = exits-due s w (no_timer s v alive) alive open_ a in
    (gone, due, fires-pid s' w.restart_timer w' pid due up good)
