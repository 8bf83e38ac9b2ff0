-- ===== src/SourceSup/Invariant/Launch.antt =====
-- The invariant over a launch.
use sbs_server.Prelude.{
  ℕ, ◌≤◌, ◌≡◌, ◌≢◌, Option, none, some, List, [], ◌++◌, arith, Option-cases, inl, inr,
}
use mathlib.Core.Path.{ap, ◌∙◌}
use sbs_server.Effects.{Effect}
use sbs_server.SourceSup.Types.{Entry, Code, ok, io, inval, nomem, not_found}
use sbs_server.SourceSup.Worker.{
  Given, create_listen_socket, first_accept, forked_worker, launch_with, launch_on, launch,
  cleanup_worker,
}
use sbs_server.SourceSup.System.{watched_fd}
use sbs_server.SourceSup.Invariant.{Sane, IsDown, IsValid, waiting, connected}

-- A launch over an entry that is down: the worker runs, or the entry is still down.
abbrev pub LaunchOk : Code × Entry × List Effect → Type 0
LaunchOk (ok, e, calls) = IsValid (record { entry = e; polled = watched_fd e; restarts = [] })
LaunchOk (code, e, calls) = IsDown e [] × (e.restart_attempts ≤ 10)

first_accept-IsValid :
    (e : Entry) (w : Given) (conn : Option ℕ)
    → e.pid ≢ 0
    → e.child_watch_id ≢ 0
    → e.listen_fd ≢ none
    → e.conn_fd ≡ none
    → e.stable_timer_id ≡ 0
    → e.restart_attempts ≤ 10
    → w.io_watch ≢ 0
    → let e' = (first_accept e w conn).0 in
      IsValid (record { entry = e'; polled = watched_fd e'; restarts = [] })
unfolding first_accept
first_accept-IsValid e w none p c l k t a real = waiting (ground arith)
first_accept-IsValid e w (some fd) p c l k t a real = connected (ground arith)

-- An entry with nothing: no process, no socket, no event source.
pub record IsClean (e : Entry) : Type 0 where
  pub pid : e.pid ≡ 0
  pub child : e.child_watch_id ≡ 0
  pub listen : e.listen_fd ≡ none
  pub conn : e.conn_fd ≡ none
  pub io : e.io_watch_id ≡ 0
  pub accept : e.accept_timer_id ≡ 0
  pub stable : e.stable_timer_id ≡ 0
  pub attempts : e.restart_attempts ≤ 10

-- The calls play no part.
LaunchOk-calls :
    (r : Code × Entry × List Effect) (calls : List Effect) → LaunchOk r → LaunchOk (r.0, r.1, calls)
LaunchOk-calls (ok, e, cs) calls h = h
LaunchOk-calls (inval, e, cs) calls h = h
LaunchOk-calls (nomem, e, cs) calls h = h
LaunchOk-calls (io, e, cs) calls h = h
LaunchOk-calls (not_found, e, cs) calls h = h

forked_worker-LaunchOk :
    (e : Entry) (w : Given) (fd rd wr pid : ℕ)
    → IsClean e
    → Sane w
    → pid ≢ 0
    → LaunchOk (forked_worker (record e { listen_fd = some fd }) w rd wr pid)
unfolding forked_worker
forked_worker-LaunchOk e w fd rd wr pid h sane real =
    let started : Entry = record e {
      listen_fd = some fd;
      pid = pid;
      last_start_time = w.now;
      child_watch_id = w.child_watch;
      accept_timer_id = w.accept_timer;
    } in
    first_accept-IsValid started w w.accepted real sane.child_watch (λ n. cc) h.conn h.stable
      h.attempts sane.io_watch

stopped_at_listen :
    (e : Entry) (calls : List Effect)
    → IsClean e
    → LaunchOk (io, record e { listen_fd = none }, calls)
stopped_at_listen e calls h = (ground (arith, h), h.attempts)

launch_with-LaunchOk :
    (e : Entry) (w : Given) (fd : ℕ) → IsClean e → Sane w → LaunchOk (launch_with e w fd)
unfolding launch_with
launch_with-LaunchOk e w fd h sane = elim (Option-cases w.pipe) [
  | inl no_pipe ↦ rw (no_pipe, launch_with) (stopped_at_listen e [] h)
  | inr (ends, piped) ↦ elim (Option-cases w.fork) [
    | inl no_fork ↦ rw (piped, no_fork, launch_with) (stopped_at_listen e [] h)
    | inr (pid, forked) ↦
        rw (piped, forked, launch_with)
          (LaunchOk-calls (forked_worker (record e { listen_fd = some fd }) w ends.0 ends.1 pid) []
            (forked_worker-LaunchOk e w fd ends.0 ends.1 pid h sane
              (λ zero_pid. sane.fork (forked ∙ ap some zero_pid))))
  ]
]

launch_on-LaunchOk :
    (e : Entry) (w : Given) (fd : Option ℕ) → IsClean e → Sane w → LaunchOk (launch_on e w fd)
unfolding launch_on
launch_on-LaunchOk e w none h sane = stopped_at_listen e [] h
launch_on-LaunchOk e w (some fd) h sane = launch_with-LaunchOk e w fd h sane

pub launch-LaunchOk : (e : Entry) (w : Given) → IsClean e → Sane w → LaunchOk (launch e w)
unfolding launch
launch-LaunchOk e w h sane =
    let fd = (create_listen_socket e.socket_path w).0 in
    LaunchOk-calls (launch_on e w fd)
      ((create_listen_socket e.socket_path w).1 ++ (launch_on e w fd).2)
      (launch_on-LaunchOk e w fd h sane)

pub cleaned-IsClean : (e : Entry) → e.restart_attempts ≤ 10 → IsClean (cleanup_worker e).0
unfolding cleanup_worker
cleaned-IsClean e a = ground (arith)
