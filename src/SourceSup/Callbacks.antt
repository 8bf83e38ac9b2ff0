-- ===== src/SourceSup/Callbacks.antt =====
-- What the main loop calls: on readiness of a socket, on the end of a worker, on timers.
use sbs_server.Prelude.{
  ℕ, Bool, true, false, not, ◌&&◌, Option, none, some, List, [], ◌∷◌, ◌++◌, if◌then◌else◌, ◌==◌,
  is_some,
}
use sbs_server.Prelude.Int.{ℤ}
use sbs_server.Effects.{Effect, opens, unlinks, kills, sigkill, reaps, adds, ends}
use sbs_server.FrameSlot.Release.{close_fd}
use sbs_server.SceneGraph.Types.{Source}
use sbs_server.SourceSup.Messages.Loop.{Incoming, Heard}
use sbs_server.SourceSup.Messages.Reading.{read_messages}
use sbs_server.SourceSup.Types.{Entry, Out, Code, ok}
use sbs_server.SourceSup.Worker.{Given, launch, cleanup_worker, schedule_restart, remove_source_id}

-- How the loop over the messages ended: no more for now, the peer closed, another error.
pub data Ended : Type 0 where
  drained peer_closed broken : Ended

-- What a call of `on_frame_available` meets: a connection to accept, a hang-up, the messages and how
-- they ended, the source in the graph and whether there is an API server; identifiers of event
-- sources. What the messages do to that source is in `Messages`.
pub record Ready : Type 0 where
  pub accepted : Option ℕ
  pub hup : Bool
  pub messages : List Incoming
  pub source : Option Source
  pub api : Bool
  pub ended : Ended
  pub io_watch : ℕ
  pub stable_timer : ℕ

abbrev pub fd_is : ℕ → Option ℕ → Bool
fd_is fd none = false
fd_is fd (some fd') = fd == fd'

-- The first branch of `on_frame_available`. The last part says whether the watch goes on.
unfoldable pub accept_late : Entry → Ready → Option ℕ → Entry × List Effect × Bool
accept_late e r none = (e, [], true)
accept_late e r (some conn) = (
  record e {
    conn_fd = some conn;
    accept_timer_id = 0;
    io_watch_id = r.io_watch;
    stable_timer_id = r.stable_timer;
  },
  opens conn ∷ remove_source_id e.accept_timer_id
      ++ (adds r.io_watch ∷ adds r.stable_timer ∷ ends e.io_watch_id ∷ []),
  false,
)

-- `kill`, if the entry is not shutting down and there is a process.
abbrev pub kill_live : Entry → List Effect
kill_live e = if e.shutting_down then [] else if e.pid == 0 then [] else kills e.pid sigkill ∷ []

-- The connection is lost.
unfoldable pub lose : Entry → Entry × List Effect × Bool
lose e = (
  record e { conn_fd = none; io_watch_id = 0 },
  close_fd e.conn_fd ++ (kill_live e ++ (ends e.io_watch_id ∷ [])),
  false,
)

-- The messages on the connection; without one, nothing is received.
unfoldable pub hear : Entry → Ready → Option ℕ → ℤ × List Effect
hear e r none = (e.last_frame_time, [])
hear e r (some conn) =
    let start : Heard = record {
      last_frame_time = e.last_frame_time;
      source = r.source;
      published = [];
      refreshes = 0;
      announced = 0;
    } in
    let (h, calls) = read_messages e.muted r.api conn start r.messages in (h.last_frame_time, calls)

-- The loop over the messages, and what follows it.
unfoldable pub take_messages : Entry → Ready → Ended → Entry × List Effect × Bool
unfolding lose hear
take_messages e r peer_closed =
    let (time, calls) = hear e r e.conn_fd in
    let (e', rest, goes_on) = lose (record e { last_frame_time = time }) in
    (e', calls ++ rest, goes_on)
take_messages e r _ =
    let (time, calls) = hear e r e.conn_fd in (record e { last_frame_time = time }, calls, true)

-- `on_frame_available`
unfoldable pub on_frame_available : Entry → ℕ → Ready → Entry × List Effect × Bool
unfolding accept_late lose take_messages
on_frame_available e fd r =
    if not (is_some e.conn_fd) && fd_is fd e.listen_fd
    then accept_late e r r.accepted
    else if r.hup
    then lose e
    else take_messages e r r.ended

-- `on_child_exit`: the entry, the restart timer's delay if one is set, the calls.
unfoldable pub on_child_exit : Entry → Given → Entry × Option ℕ × List Effect
on_child_exit e w =
    let cleared : Entry = record e {
      child_watch_id = 0;
      pid = 0;
      io_watch_id = 0;
      conn_fd = none;
      listen_fd = none;
    } in
    let before =
      ends e.child_watch_id ∷ reaps e.pid ∷ remove_source_id e.io_watch_id
      ++ (close_fd e.conn_fd ++ (close_fd e.listen_fd ++ (unlinks e.socket_path ∷ []))) in
    let (e', delay, rest) = schedule_restart cleared w in
    if e.shutting_down then (cleared, none, before) else (e', delay, before ++ rest)

-- `on_accept_timeout`
unfoldable pub on_accept_timeout : Entry → Out
on_accept_timeout e = (
  record e { accept_timer_id = 0 },
  (if e.pid == 0 then [] else kills e.pid sigkill ∷ []) ++ (ends e.accept_timer_id ∷ []),
)

-- `on_stable_timer`
unfoldable pub on_stable_timer : Entry → Out
on_stable_timer e =
    (record e { stable_timer_id = 0; restart_attempts = 0 }, ends e.stable_timer_id ∷ [])

-- What follows the launch in `on_restart_timer`.
unfoldable pub relaunched : Given → Code × Entry × List Effect → Entry × Option ℕ × List Effect
relaunched w (ok, e, calls) = (e, none, calls)
relaunched w (code, e, calls) =
    let (e', delay, rest) = schedule_restart e w in (e', delay, calls ++ rest)

-- `on_restart_timer`, on the timer with the identifier `id`.
unfoldable pub on_restart_timer : Entry → ℕ → Given → Entry × Option ℕ × List Effect
unfolding relaunched
on_restart_timer e id w =
    let (cleaned, before) = cleanup_worker e in
    let (e', delay, rest) = relaunched w (launch cleaned w) in
    if e.shutting_down
    then (e, none, ends id ∷ [])
    else (e', delay, before ++ (rest ++ (ends id ∷ [])))
