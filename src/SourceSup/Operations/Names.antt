-- ===== src/SourceSup/Operations/Names.antt =====
-- No operation changes the name of an entry.
use sbs_server.Prelude.{ℕ, ◌≡◌, refl, ◌∙◌, Option, none, some, List, [], ◌∷◌, ◌==◌, arith, if_elim}
use sbs_server.Effects.{Effect}
use sbs_server.SourceSup.Types.{Entry, Code}
use sbs_server.SourceSup.Worker.{
  Given, create_listen_socket, first_accept, forked_worker, launch_with, launch_on, launch,
  cleanup_worker, schedule_restart,
}
use sbs_server.SourceSup.Callbacks.{
  Ready, accept_late, lose, take_messages, on_frame_available, on_child_exit, on_accept_timeout,
  on_stable_timer, relaunched, on_restart_timer,
}
use sbs_server.SourceSup.System.{
  System, Event, socket_ready, worker_exits, accept_timeout, stable_timeout, restart_timeout,
  on_socket, on_restart, step,
}

-- The name never changes.
launch_with-source_id :
    (e : Entry) (w : Given) (fd : Option ℕ) → (launch_on e w fd).1.source_id ≡ e.source_id
unfolding launch_on launch_with forked_worker first_accept
launch_with-source_id e w fd = ground arith

pub launch-source_id : (e : Entry) (w : Given) → (launch e w).1.source_id ≡ e.source_id
unfolding launch
launch-source_id e w = launch_with-source_id e w (create_listen_socket e.socket_path w).0

frame-source_id :
    (e : Entry) (fd : ℕ) (r : Ready) → (on_frame_available e fd r).0.source_id ≡ e.source_id
unfolding on_frame_available accept_late take_messages lose
frame-source_id e fd r = ground arith

exit-source_id : (e : Entry) (w : Given) → (on_child_exit e w).0.source_id ≡ e.source_id
unfolding on_child_exit schedule_restart
exit-source_id e w = ground arith

relaunched-source_id :
    (w : Given) (r : Code × Entry × List Effect) → (relaunched w r).0.source_id ≡ r.1.source_id
unfolding relaunched schedule_restart
relaunched-source_id w r = ground arith

abbrev Titled : Entry → Entry × Option ℕ × List Effect → Type 0
Titled e r = r.0.source_id ≡ e.source_id

restart-source_id :
    (e : Entry) (id : ℕ) (w : Given) → (on_restart_timer e id w).0.source_id ≡ e.source_id
unfolding on_restart_timer cleanup_worker
restart-source_id e id w =
    if_elim (Titled e) e.shutting_down (λ _. refl)
      (λ _.
        relaunched-source_id w (launch (cleanup_worker e).0 w)
        ∙ launch-source_id (cleanup_worker e).0 w)

abbrev pub SameName : System → System × List Effect → Type 0
SameName s r = r.0.entry.source_id ≡ s.entry.source_id

socket-SameName : (s : System) (r : Ready) (fd : Option ℕ) → SameName s (on_socket s r fd)
unfolding on_socket
socket-SameName s r none = refl
socket-SameName s r (some fd) = frame-source_id s.entry fd r

timer-SameName : (s : System) (w : Given) (ids : List ℕ) → SameName s (on_restart s w ids)
unfolding on_restart
timer-SameName s w [] = refl
timer-SameName s w (id ∷ ids) = restart-source_id s.entry id w

pub step-source_id : (s : System) (ev : Event) → SameName s (step s ev)
unfolding step on_accept_timeout on_stable_timer
step-source_id s (socket_ready r) =
    if_elim (SameName s) (s.entry.io_watch_id == 0) (λ _. refl) (λ _. socket-SameName s r s.polled)
step-source_id s (worker_exits w) =
    if_elim (SameName s) (s.entry.child_watch_id == 0) (λ _. refl) (λ _. exit-source_id s.entry w)
step-source_id s accept_timeout = ground arith
step-source_id s stable_timeout = ground arith
step-source_id s (restart_timeout w) = timer-SameName s w s.restarts
