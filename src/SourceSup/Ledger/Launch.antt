-- ===== src/SourceSup/Ledger/Launch.antt =====
-- The ledger over a launch and a restart.
use sbs_server.Prelude.{
  ℕ, ◌+◌, ◌≤◌, ◌≡◌, ◌≢◌, Bool, Option, none, some, List, [], ◌∷◌, ◌++◌, arith, if_elim,
}
use sbs_server.Prelude.Bytes.{Bytes}
use sbs_server.Effects.{Effect, ends}
use sbs_server.Effects.Ledger.{
  tally, tally-append, holds, is_it, opened, closed, forked, reaped, added, removed,
}
use sbs_server.FrameSlot.Release.{published}
use sbs_server.SourceSup.Types.{Entry, Code, ok, inval, nomem, io, not_found}
use sbs_server.SourceSup.Worker.{
  Given, listen_on, create_listen_socket, first_accept, forked_worker, launch_with, launch_on,
  launch, cleanup_worker, schedule_restart,
}
use sbs_server.SourceSup.Callbacks.{relaunched, on_restart_timer}
use sbs_server.SourceSup.System.{add_restart}
use sbs_server.SourceSup.Ledger.Callbacks.{schedule_restart-Kept, cleanup_worker-Kept}
use sbs_server.SourceSup.Ledger.{Kept, Kept-append, KeptOut, count, fds, ProcsKept, SourcesKept}
use sbs_server.SourceSup.Invariant.Launch.{IsClean, cleaned-IsClean}

listen_on-kept :
    (x fd : ℕ) (path : Bytes) (bind_ok listen_ok : Bool)
    → let (got, calls) = listen_on fd path bind_ok listen_ok in
      is_it x fd + tally (opened x) calls ≡ holds x got + tally (closed x) calls
unfolding listen_on
listen_on-kept x fd path b l = ground arith

create_listen_socket-kept :
    (x : ℕ) (path : Bytes) (w : Given)
    → let (got, calls) = create_listen_socket path w in
      (tally (opened x) calls ≡ holds x got + tally (closed x) calls)
      × (tally (published x) calls ≡ 0)
      × (tally (forked x) calls ≡ tally (reaped x) calls)
      × (tally (added x) calls ≡ tally (removed x) calls)
unfolding create_listen_socket listen_on
create_listen_socket-kept x path w = ground arith

first_accept-Kept :
    (x : ℕ) (e : Entry) (w : Given) (conn : Option ℕ)
    → x ≢ 0
    → e.conn_fd ≡ none
    → e.stable_timer_id ≡ 0
    → e.io_watch_id ≡ 0
    → Kept x 0 e 0 (first_accept e w conn).0 (first_accept e w conn).1
unfolding first_accept
first_accept-Kept x e w none real k t i = ground arith
first_accept-Kept x e w (some fd) real k t i = ground arith

-- A launch that has the descriptors `extra` in hand.
abbrev KeptFrom : ℕ → ℕ → Entry → Code × Entry × List Effect → Type 0
KeptFrom x extra e (code, e', calls) =
    (extra + tally (opened x) calls ≡ fds x e' + tally (closed x) calls)
    × ProcsKept x e e' calls
    × SourcesKept x 0 e 0 e' calls
    × (tally (published x) calls ≡ 0)

launch_with-KeptFrom :
    (x : ℕ) (e : Entry) (w : Given) (fd : ℕ)
    → x ≢ 0
    → IsClean e
    → KeptFrom x (is_it x fd) e (launch_with e w fd)
unfolding launch_with forked_worker first_accept
launch_with-KeptFrom x e w fd real h = ground (arith, h)

launch_on-KeptFrom :
    (x : ℕ) (e : Entry) (w : Given) (fd : Option ℕ)
    → x ≢ 0
    → IsClean e
    → KeptFrom x (holds x fd) e (launch_on e w fd)
unfolding launch_on
launch_on-KeptFrom x e w none real h = ground (arith, h)
launch_on-KeptFrom x e w (some fd) real h = launch_with-KeptFrom x e w fd real h

pub launch-KeptFrom :
    (x : ℕ) (e : Entry) (w : Given) → x ≢ 0 → IsClean e → KeptFrom x 0 e (launch e w)
unfolding launch
launch-KeptFrom x e w real h =
    let (fd, before) = create_listen_socket e.socket_path w in
    let (code, e', rest) = launch_on e w fd in
    omega (
      arith,
      launch_on-KeptFrom x e w fd real h,
      create_listen_socket-kept x e.socket_path w,
      tally-append (opened x) before rest,
      tally-append (closed x) before rest,
      tally-append (published x) before rest,
      tally-append (forked x) before rest,
      tally-append (reaped x) before rest,
      tally-append (added x) before rest,
      tally-append (removed x) before rest,
    )

fds_clean : (x : ℕ) (e : Entry) → IsClean e → fds x e ≡ 0
fds_clean x e h = ground (arith, h)

pub launch-Kept :
    (x : ℕ) (e : Entry) (w : Given) → x ≢ 0 → IsClean e → Kept x 0 e 0 (launch e w).1 (launch e w).2
launch-Kept x e w real h =
    let (kept, rest, more, quiet) = launch-KeptFrom x e w real h in
    (omega (arith, kept, quiet, fds_clean x e h), rest, more)

-- A launch publishes nothing.
pub launch_quiet :
    (x : ℕ) (e : Entry) (w : Given) → x ≢ 0 → IsClean e → tally (published x) (launch e w).2 ≡ 0
launch_quiet x e w real h = (launch-KeptFrom x e w real h).3

retry-KeptOut :
    (x : ℕ) (e e' : Entry) (w : Given) (calls : List Effect)
    → x ≢ 0
    → Kept x 0 e 0 e' calls
    → KeptOut x 0 e w.restart_timer
        ((schedule_restart e' w).0, (schedule_restart e' w).1, calls ++ (schedule_restart e' w).2)
retry-KeptOut x e e' w calls real kept =
    let (e'', delay, rest) = schedule_restart e' w in
    Kept-append x 0 0 (count x (add_restart delay w.restart_timer [])) e e' e'' calls rest kept
      (schedule_restart-Kept x e' w real)

relaunched-KeptOut :
    (x : ℕ) (e : Entry) (w : Given) (r : Code × Entry × List Effect)
    → x ≢ 0
    → Kept x 0 e 0 r.1 r.2
    → KeptOut x 0 e w.restart_timer (relaunched w r)
unfolding relaunched
relaunched-KeptOut x e w (ok, e', calls) real kept = kept
relaunched-KeptOut x e w (inval, e', calls) real kept = retry-KeptOut x e e' w calls real kept
relaunched-KeptOut x e w (nomem, e', calls) real kept = retry-KeptOut x e e' w calls real kept
relaunched-KeptOut x e w (io, e', calls) real kept = retry-KeptOut x e e' w calls real kept
relaunched-KeptOut x e w (not_found, e', calls) real kept = retry-KeptOut x e e' w calls real kept

-- The timer with the identifier `id` is held before, and gone afterwards.
pub on_restart_timer-KeptOut :
    (x : ℕ) (e : Entry) (id : ℕ) (w : Given)
    → x ≢ 0
    → e.pid ≡ 0
    → e.restart_attempts ≤ 10
    → KeptOut x (is_it x id) e w.restart_timer (on_restart_timer e id w)
unfolding on_restart_timer
on_restart_timer-KeptOut x e id w real p a =
    if_elim (KeptOut x (is_it x id) e w.restart_timer) e.shutting_down (λ _. ground arith)
      (λ _.
        let (cleaned, before) = cleanup_worker e in
        let (e', delay, rest) = relaunched w (launch cleaned w) in
        let n = count x (add_restart delay w.restart_timer []) in
        Kept-append x (is_it x id) (is_it x id) n e cleaned e' before (rest ++ (ends id ∷ []))
          (omega (arith, cleanup_worker-Kept x e real p))
          (Kept-append x (is_it x id) (n + is_it x id) n cleaned e' e' rest (ends id ∷ [])
            (omega (
              arith,
              relaunched-KeptOut x cleaned w (launch cleaned w) real
                  (launch-Kept x cleaned w real (cleaned-IsClean e a)),
            ))
            (ground arith)))
