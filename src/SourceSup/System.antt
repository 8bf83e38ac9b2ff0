-- ===== src/SourceSup/System.antt =====
-- An entry with what the main loop knows of it: the descriptor that its watch polls, and the restart
-- timers, which the entry does not keep. The loop fires only what is there.
use sbs_server.Prelude.{ℕ, Option, none, some, List, [], ◌∷◌, ◌++◌, if◌then◌else◌, ◌==◌}
use sbs_server.Effects.{Effect}
use sbs_server.SourceSup.Types.{Entry}
use sbs_server.SourceSup.Worker.{Given}
use sbs_server.SourceSup.Callbacks.{
  Ready, on_frame_available, on_child_exit, on_accept_timeout, on_stable_timer, on_restart_timer,
}

pub record System : Type 0 where
  pub entry : Entry
  pub polled : Option ℕ
  pub restarts : List ℕ

pub data Event : Type 0 where
  socket_ready : Ready → Event
  worker_exits : Given → Event
  accept_timeout stable_timeout : Event
  restart_timeout : Given → Event

-- The descriptor of a watch that is installed now.
abbrev pub watched_fd : Entry → Option ℕ
watched_fd e = elim e.conn_fd [ none ↦ e.listen_fd | some fd ↦ some fd ]

abbrev pub add_restart : Option ℕ → ℕ → List ℕ → List ℕ
add_restart none id ids = ids
add_restart (some delay) id ids = id ∷ ids

unfoldable pub on_socket : System → Ready → Option ℕ → System × List Effect
on_socket s r none = (s, [])
on_socket s r (some fd) =
    let (e, calls, goes_on) = on_frame_available s.entry fd r in
    (
      record {
        entry = e;
        polled = if goes_on then s.polled else watched_fd e;
        restarts = s.restarts;
      },
      calls,
    )

unfoldable pub on_restart : System → Given → List ℕ → System × List Effect
on_restart s w [] = (s, [])
on_restart s w (id ∷ ids) =
    let (e, delay, calls) = on_restart_timer s.entry id w in
    (
      record { entry = e; polled = watched_fd e; restarts = add_restart delay w.restart_timer ids },
      calls,
    )

unfoldable pub step : System → Event → System × List Effect
unfolding on_socket on_restart
step s (socket_ready r) = if s.entry.io_watch_id == 0 then (s, []) else on_socket s r s.polled
step s (worker_exits w) =
    let (e, delay, calls) = on_child_exit s.entry w in
    if s.entry.child_watch_id == 0
    then (s, [])
    else (record s { entry = e; restarts = add_restart delay w.restart_timer s.restarts }, calls)
step s accept_timeout =
    let (e, calls) = on_accept_timeout s.entry in
    if s.entry.accept_timer_id == 0 then (s, []) else (record s { entry = e }, calls)
step s stable_timeout =
    let (e, calls) = on_stable_timer s.entry in
    if s.entry.stable_timer_id == 0 then (s, []) else (record s { entry = e }, calls)
step s (restart_timeout w) = on_restart s w s.restarts

unfoldable pub run : System → List Event → System × List Effect
unfolding step
run s [] = (s, [])
run s (ev ∷ evs) =
    let (s', calls) = step s ev in let (s'', rest) = run s' evs in (s'', calls ++ rest)
