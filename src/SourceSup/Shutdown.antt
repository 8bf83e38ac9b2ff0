-- ===== src/SourceSup/Shutdown.antt =====
-- `sbs_source_supervisor_shutdown_all`: every worker is asked to end, then told, then killed. The
-- argument for a loop over `waitpid` is one answer for each of its rounds before the deadline: which
-- processes have ended by then.
pub mod Gone
use sbs_server.Prelude.{ℕ, Bool, true, false, ◌&&◌, List, [], ◌∷◌, ◌++◌, if◌then◌else◌, ◌==◌}
use sbs_server.Table.{Table}
use sbs_server.Effects.{Effect, reaps, kills, sigkill}
use sbs_server.SourceSup.Types.{Entry}
use sbs_server.SourceSup.System.{System}
use sbs_server.SourceSup.Supervisor.{Supervisor, send_shutdown, terminate, free_all}

-- `g_hash_table_get_values`
unfoldable pub entries : Table System → List Entry
entries [] = []
entries ((id, s) ∷ m) = s.entry ∷ entries m

-- Stage 0
unfoldable pub ask_all : List Entry → List Entry × List Effect
ask_all [] = ([], [])
ask_all (e ∷ es) =
    let closing : Entry = record e { shutting_down = true } in
    let (es', calls) = ask_all es in (closing ∷ es', send_shutdown closing ++ calls)

-- `waitpid` with WNOHANG for one entry: whether it has no process now.
unfoldable pub poll_entry : (ℕ → Bool) → Entry → Entry × List Effect × Bool
poll_entry ended e =
    if e.pid == 0
    then (e, [], true)
    else if ended e.pid
    then (record e { pid = 0 }, reaps e.pid ∷ [], true)
    else (e, [], false)

-- One round; whether all have ended.
unfoldable pub poll_round : (ℕ → Bool) → List Entry → List Entry × List Effect × Bool
unfolding poll_entry
poll_round ended [] = ([], [], true)
poll_round ended (e ∷ es) =
    let (e', calls, gone) = poll_entry ended e in
    let (es', rest, all) = poll_round ended es in (e' ∷ es', calls ++ rest, gone && all)

-- Rounds until all have ended or the deadline.
unfoldable pub poll_until : List (ℕ → Bool) → List Entry → List Entry × List Effect × Bool
unfolding poll_round
poll_until [] es = (es, [], false)
poll_until (ended ∷ answers) es =
    let (es', calls, all) = poll_round ended es in
    let (es'', rest, all') = poll_until answers es' in
    if all then (es', calls, true) else (es'', calls ++ rest, all')

-- Stage 2
unfoldable pub terminate_all : List Entry → List Effect
terminate_all [] = []
terminate_all (e ∷ es) = terminate e ++ terminate_all es

-- Stage 3
abbrev pub kill_entry : Entry → List Effect
kill_entry e = if e.pid == 0 then [] else kills e.pid sigkill ∷ reaps e.pid ∷ []

unfoldable pub kill_all : List Entry → List Entry × List Effect
kill_all [] = ([], [])
kill_all (e ∷ es) =
    let (es', calls) = kill_all es in (record e { pid = 0 } ∷ es', kill_entry e ++ calls)

unfoldable pub force : List (ℕ → Bool) → List Entry → List Effect
unfolding poll_until kill_all
force answers es =
    let (es', calls, all) = poll_until answers es in
    let (es'', rest) = kill_all es' in terminate_all es ++ (calls ++ (rest ++ free_all es''))

unfoldable pub shutdown_entries : List (ℕ → Bool) → List (ℕ → Bool) → List Entry → List Effect
unfolding ask_all poll_until force
shutdown_entries grace term es =
    let (es', asks) = ask_all es in
    let (es'', calls, all) = poll_until grace es' in
    asks ++ (calls ++ (if all then free_all es'' else force term es''))

-- `sbs_source_supervisor_shutdown_all`
unfoldable pub shutdown_all :
    Supervisor → List (ℕ → Bool) → List (ℕ → Bool) → Supervisor × List Effect
unfolding shutdown_entries
shutdown_all sup grace term =
    (record sup { sources = [] }, shutdown_entries grace term (entries sup.sources))
