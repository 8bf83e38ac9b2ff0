-- ===== src/SourceSup/Supervisor.antt =====
-- The supervisor: its table of entries, and the functions that other parts of the server call.
use sbs_server.Prelude.{
  ℕ, ◌%◌, Bool, true, false, not, Option, none, some, List, [], ◌∷◌, ◌++◌, if◌then◌else◌, ◌==◌,
  length,
}
use sbs_server.Prelude.Bytes.{Bytes, codes}
use sbs_server.Prelude.Int.{pos}
use sbs_server.Prelude.Words.{u32_mod}
use sbs_server.Table.{Table, lookup, contains, insert, remove}
use sbs_server.Effects.{Effect, sends, shutdown, kills, sigterm}
use sbs_server.SourceSup.Types.{
  StartConfig, Entry, Code, ok, inval, nomem, not_found, shutdown_grace_ms,
}
use sbs_server.SourceSup.Worker.{Given, launch, entry_free}
use sbs_server.SourceSup.System.{System, Event, watched_fd, step}

-- `struct sbs_source_supervisor`; of an entry, also what the main loop knows of it. The scene graph
-- and the API server are arguments where they are used.
pub record Supervisor : Type 0 where
  pub sources : Table System
  pub worker_path : Bytes
  pub sock_dir : Bytes

-- `sbs_source_supervisor_new`, where the allocations succeed.
unfoldable pub new : Bytes → Bytes → Supervisor
new worker_path sock_dir = record { sources = []; worker_path = worker_path; sock_dir = sock_dir }

-- The `snprintf` of the path into `strlen(sock_dir) + strlen(id) + 16` bytes, its NUL left out: the
-- text has 13 bytes beside the two strings.
abbrev pub socket_path : Bytes → Bytes → Bytes
socket_path sock_dir id = sock_dir ++ (codes "/source-" ++ (id ++ codes ".sock"))

abbrev pub default_type : Option Bytes → Bytes
default_type none = codes "videotestsrc"
default_type (some type) = type

-- The entry that `start_source` makes. The `strdup`s succeed, which the code relies on.
unfoldable pub new_entry : Supervisor → StartConfig → Bytes → Entry
new_entry sup config id = record {
  source_id = id;
  source_type = default_type config.source_type;
  socket_path = socket_path sup.sock_dir id;
  pid = 0;
  listen_fd = none;
  conn_fd = none;
  io_watch_id = 0;
  child_watch_id = 0;
  accept_timer_id = 0;
  stable_timer_id = 0;
  restart_attempts = 0;
  last_start_time = pos 0;
  last_frame_time = pos 0;
  shutting_down = false;
  muted = false;
  config_copy = record config {
    source_id = some id;
    source_type = some (default_type config.source_type);
  };
}

abbrev pub fresh_system : Entry → System
fresh_system e = record { entry = e; polled = watched_fd e; restarts = [] }

-- After the launch: the entry stays, or it is removed and freed.
unfoldable pub launched :
    Supervisor → Bytes → Code × Entry × List Effect → Code × Supervisor × List Effect
launched sup id (ok, e, calls) =
    (ok, record sup { sources = insert id (fresh_system e) sup.sources }, calls)
launched sup id (code, e, calls) = (
  code,
  record sup { sources = remove id (insert id (fresh_system e) sup.sources) },
  calls ++ entry_free e,
)

-- What the allocations of `start_source` give: the entry's and the path's.
pub record Memory : Type 0 where
  pub entry : Bool
  pub path : Bool

unfoldable pub start_new :
    Supervisor → StartConfig → Bytes → Memory → Given → Code × Supervisor × List Effect
unfolding launched
start_new sup config id memory w =
    let started = launched sup id (launch (new_entry sup config id) w) in
    if contains id sup.sources
    then (inval, sup, [])
    else if not memory.entry
    then (nomem, sup, [])
    else if not memory.path
    then (nomem, sup, [])
    else started

-- `sbs_source_supervisor_start_source`, with whether `slot` is not NULL.
unfoldable pub start_source :
    Supervisor → StartConfig → Bool → Memory → Given → Code × Supervisor × List Effect
unfolding start_new
start_source sup config slot memory w = elim config.source_id [
  | none ↦ (inval, sup, [])
  | some id ↦ if slot then start_new sup config id memory w else (inval, sup, [])
]

-- The shutdown message, if there is a connection.
abbrev pub send_shutdown : Entry → List Effect
send_shutdown e = elim e.conn_fd [
  | none ↦ []
  | some fd ↦ sends fd (shutdown shutdown_grace_ms 0) ∷ []
]

abbrev pub terminate : Entry → List Effect
terminate e = if e.pid == 0 then [] else kills e.pid sigterm ∷ []

-- `sbs_source_supervisor_stop_source`
unfoldable pub stop_source : Supervisor → Bytes → Code × Supervisor × List Effect
stop_source sup id = elim (lookup id sup.sources) [
  | none ↦ (not_found, sup, [])
  | some s ↦
      let closing : Entry = record (s.entry) { shutting_down = true } in
      (
        ok,
        record sup { sources = remove id sup.sources },
        send_shutdown closing ++ (terminate closing ++ entry_free closing),
      )
]

abbrev pub with_muted : System → Bool → System
with_muted s muted = record s { entry = record (s.entry) { muted = muted } }

-- `sbs_source_supervisor_mute_source`
unfoldable pub mute_source : Supervisor → Bytes → Code × Supervisor
mute_source sup id = elim (lookup id sup.sources) [
  | none ↦ (not_found, sup)
  | some s ↦
      if s.entry.muted
      then (ok, sup)
      else (ok, record sup { sources = insert id (with_muted s true) sup.sources })
]

-- `sbs_source_supervisor_unmute_source`
unfoldable pub unmute_source : Supervisor → Bytes → Code × Supervisor
unmute_source sup id = elim (lookup id sup.sources) [
  | none ↦ (not_found, sup)
  | some s ↦
      if not s.entry.muted
      then (ok, sup)
      else (ok, record sup { sources = insert id (with_muted s false) sup.sources })
]

-- `sbs_source_supervisor_source_count`
unfoldable pub source_count : Supervisor → ℕ
source_count sup = length sup.sources % u32_mod

-- The main loop calls back for the source `id`.
unfoldable pub fire : Supervisor → Bytes → Event → Supervisor × List Effect
fire sup id ev = elim (lookup id sup.sources) [
  | none ↦ (sup, [])
  | some s ↦
      let (s', calls) = step s ev in (record sup { sources = insert id s' sup.sources }, calls)
]

-- `g_hash_table_remove_all`: every entry is freed.
unfoldable pub free_all : List Entry → List Effect
free_all [] = []
free_all (e ∷ es) = entry_free e ++ free_all es
