-- ===== src/SourceSup/Invariant.antt =====
-- The invariant of an entry and its event sources between any two calls of the main loop.
pub mod Timers
pub mod Socket
pub mod Launch
pub mod Steps
use sbs_server.Prelude.{ℕ, ◌+◌, ◌≤◌, ◌≡◌, ◌≢◌, Option, none, some, List, [], length}
use sbs_server.Effects.{Effect}
use sbs_server.SourceSup.Types.{Entry, io}
use sbs_server.SourceSup.Worker.{Given}
use sbs_server.SourceSup.System.{System, Event, socket_ready, worker_exits, restart_timeout}

-- GLib's identifiers and the processes of `fork` are not 0.
pub record Sane (w : Given) : Type 0 where
  pub child_watch : w.child_watch ≢ 0
  pub accept_timer : w.accept_timer ≢ 0
  pub io_watch : w.io_watch ≢ 0
  pub stable_timer : w.stable_timer ≢ 0
  pub fork : w.fork ≢ some 0

abbrev pub SaneEvent : Event → Type 0
SaneEvent (socket_ready r) = (r.io_watch ≢ 0) × (r.stable_timer ≢ 0)
SaneEvent (worker_exits w) = Sane w
SaneEvent (restart_timeout w) = Sane w
SaneEvent _ = Unit {0}

-- No process: no sockets and no watch of them; at most one restart is due.
pub record IsDown (e : Entry) (restarts : List ℕ) : Type 0 where
  pub pid : e.pid ≡ 0
  pub child : e.child_watch_id ≡ 0
  pub listen : e.listen_fd ≡ none
  pub conn : e.conn_fd ≡ none
  pub io : e.io_watch_id ≡ 0
  pub one : length restarts ≤ 1
  pub attempts : e.restart_attempts + length restarts ≤ 11

-- A process, watched, that has not connected: the listening socket is polled.
pub record IsWaiting (e : Entry) (polled : Option ℕ) (restarts : List ℕ) : Type 0 where
  pub pid : e.pid ≢ 0
  pub child : e.child_watch_id ≢ 0
  pub listen : e.listen_fd ≢ none
  pub conn : e.conn_fd ≡ none
  pub io : e.io_watch_id ≢ 0
  pub polled_fd : polled ≡ e.listen_fd
  pub stable : e.stable_timer_id ≡ 0
  pub none_due : restarts ≡ []
  pub attempts : e.restart_attempts ≤ 10

-- A process, watched, that has connected: the connection is polled. Or it was lost, and the process
-- still has to end.
pub record IsConnected (e : Entry) (polled : Option ℕ) (restarts : List ℕ) : Type 0 where
  pub pid : e.pid ≢ 0
  pub child : e.child_watch_id ≢ 0
  pub accept : e.accept_timer_id ≡ 0
  pub conn : e.conn_fd ≢ none
  pub io : e.io_watch_id ≢ 0
  pub polled_fd : polled ≡ e.conn_fd
  pub none_due : restarts ≡ []
  pub attempts : e.restart_attempts ≤ 10

pub record IsLost (e : Entry) (restarts : List ℕ) : Type 0 where
  pub pid : e.pid ≢ 0
  pub child : e.child_watch_id ≢ 0
  pub conn : e.conn_fd ≡ none
  pub io : e.io_watch_id ≡ 0
  pub none_due : restarts ≡ []
  pub attempts : e.restart_attempts ≤ 10

pub data IsValid (s : System) : Type 0 where
  down : IsDown s.entry s.restarts → IsValid s
  waiting : IsWaiting s.entry s.polled s.restarts → IsValid s
  connected : IsConnected s.entry s.polled s.restarts → IsValid s
  lost : IsLost s.entry s.restarts → IsValid s

abbrev pub StepOk : System × List Effect → Type 0
StepOk r = IsValid r.0
