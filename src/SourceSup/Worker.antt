-- ===== src/SourceSup/Worker.antt =====
-- Starting a worker and clearing up after one. What the kernel and the main loop give is an argument.
use sbs_server.Prelude.{
  ℕ, Bool, not, Option, none, some, List, [], ◌∷◌, ◌++◌, if◌then◌else◌, ◌==◌, ltb,
}
use sbs_server.Prelude.Bytes.{Bytes}
use sbs_server.Prelude.Words.{add32}
use sbs_server.Prelude.Int.{ℤ}
use sbs_server.Effects.{Effect, opens, closes, unlinks, forks, reaps, kills, sigkill, adds, removes}
use sbs_server.FrameSlot.Release.{close_fd}
use sbs_server.SourceSup.Types.{Entry, Out, Code, ok, io, max_restart_attempts}
use sbs_server.SourceSup.Backoff.{plain_delay, jittered}

-- What the calls of `source_entry_launch` give: descriptors, a process, identifiers of event sources.
-- `pipe` is the pair of ends; `fork` is the process seen by the parent. The child, which executes the
-- worker, is another process.
pub record Given : Type 0 where
  pub socket : Option ℕ
  pub bind_ok : Bool
  pub listen_ok : Bool
  pub pipe : Option (ℕ × ℕ)
  pub fork : Option ℕ
  pub now : ℤ
  pub child_watch : ℕ
  pub accept_timer : ℕ
  pub accepted : Option ℕ
  pub io_watch : ℕ
  pub stable_timer : ℕ
  -- for `schedule_restart`
  pub jitter : ℕ
  pub add : Bool
  pub restart_timer : ℕ

-- `create_listen_socket`
unfoldable pub listen_on : ℕ → Bytes → Bool → Bool → Option ℕ × List Effect
listen_on fd path bind_ok listen_ok =
    if not bind_ok
    then (none, closes fd ∷ [])
    else if not listen_ok
    then (none, closes fd ∷ unlinks path ∷ [])
    else (some fd, [])

unfoldable pub create_listen_socket : Bytes → Given → Option ℕ × List Effect
unfolding listen_on
create_listen_socket path w = elim w.socket [
  | none ↦ (none, unlinks path ∷ [])
  | some fd ↦
      let (got, rest) = listen_on fd path w.bind_ok w.listen_ok in
      (got, unlinks path ∷ opens fd ∷ rest)
]

-- The end of `source_entry_launch`: the worker may have connected already.
unfoldable pub first_accept : Entry → Given → Option ℕ → Out
first_accept e w none = (record e { io_watch_id = w.io_watch }, adds w.io_watch ∷ [])
first_accept e w (some conn) = (
  record e {
    conn_fd = some conn;
    accept_timer_id = 0;
    io_watch_id = w.io_watch;
    stable_timer_id = w.stable_timer;
  },
  opens conn ∷ (if e.accept_timer_id == 0 then [] else removes e.accept_timer_id ∷ [])
      ++ (adds w.io_watch ∷ adds w.stable_timer ∷ []),
)

-- The parent after the fork.
unfoldable pub forked_worker : Entry → Given → ℕ → ℕ → ℕ → Code × Entry × List Effect
unfolding first_accept
forked_worker e w rd wr pid =
    let started : Entry = record e {
      pid = pid;
      last_start_time = w.now;
      child_watch_id = w.child_watch;
      accept_timer_id = w.accept_timer;
    } in
    let (e', rest) = first_accept started w w.accepted in
    (ok, e', forks pid ∷ closes rd ∷ closes wr ∷ adds w.child_watch ∷ adds w.accept_timer ∷ rest)

-- From the pipe on.
unfoldable pub launch_with : Entry → Given → ℕ → Code × Entry × List Effect
unfolding forked_worker
launch_with e w fd = elim w.pipe [
  | none ↦ (io, record e { listen_fd = none }, closes fd ∷ [])
  | some (rd, wr) ↦ elim w.fork [
    | none ↦ (
      io,
      record e { listen_fd = none },
      opens rd ∷ opens wr ∷ closes rd ∷ closes wr ∷ closes fd ∷ [],
    )
    | some pid ↦
        let (code, e', rest) = forked_worker (record e { listen_fd = some fd }) w rd wr pid in
        (code, e', opens rd ∷ opens wr ∷ rest)
  ]
]

unfoldable pub launch_on : Entry → Given → Option ℕ → Code × Entry × List Effect
unfolding launch_with
launch_on e w none = (io, record e { listen_fd = none }, [])
launch_on e w (some fd) = launch_with e w fd

-- `source_entry_launch`. `build_config_json` gives a text: GLib ends the program when memory is out.
unfoldable pub launch : Entry → Given → Code × Entry × List Effect
unfolding launch_on create_listen_socket
launch e w =
    let (fd, before) = create_listen_socket e.socket_path w in
    let (code, e', rest) = launch_on e w fd in (code, e', before ++ rest)

-- `if (id) g_source_remove(id)`
abbrev pub remove_source_id : ℕ → List Effect
remove_source_id id = if id == 0 then [] else removes id ∷ []

-- `source_entry_cleanup_worker`
unfoldable pub cleanup_worker : Entry → Out
cleanup_worker e = (
  record e {
    io_watch_id = 0;
    child_watch_id = 0;
    accept_timer_id = 0;
    stable_timer_id = 0;
    conn_fd = none;
    listen_fd = none;
    pid = 0;
  },
  remove_source_id e.io_watch_id
      ++ (remove_source_id e.child_watch_id
          ++ (remove_source_id e.accept_timer_id
              ++ (remove_source_id e.stable_timer_id
                  ++ (close_fd e.conn_fd
                      ++ (close_fd e.listen_fd ++ (unlinks e.socket_path ∷ [])))))),
)

-- `source_entry_free`, but for the memory.
unfoldable pub entry_free : Entry → List Effect
entry_free e =
    remove_source_id e.io_watch_id
    ++ (remove_source_id e.child_watch_id
        ++ (remove_source_id e.accept_timer_id
            ++ (remove_source_id e.stable_timer_id
                ++ (close_fd e.conn_fd
                    ++ (close_fd e.listen_fd
                        ++ (unlinks e.socket_path
                            ∷ (if e.pid == 0
                                then []
                                else kills e.pid sigkill ∷ reaps e.pid ∷ [])))))))

-- `schedule_restart`: the entry, the delay of the timer if one is set, the calls.
unfoldable pub schedule_restart : Entry → Given → Entry × Option ℕ × List Effect
schedule_restart e w =
    let counted : Entry = record e { restart_attempts = add32 e.restart_attempts 1 } in
    if ltb max_restart_attempts counted.restart_attempts then (counted, none, []) else (
      counted,
      some (jittered (plain_delay counted.restart_attempts) w.jitter w.add),
      adds w.restart_timer ∷ [],
    )
