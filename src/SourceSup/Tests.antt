-- ===== src/SourceSup/Tests.antt =====
-- Concrete runs of the source supervisor.
mod Samples
use sbs_server.Prelude.{
  ◌+◌, ◌-◌, ◌^◌, ◌≤◌, ◌<◌, ◌≡◌, ◌↔◌, refl, true, false, some, [], ◌∷◌, ◌++◌, arith, length,
}
use sbs_server.Prelude.Bytes.{codes, str_eq}
use sbs_server.Prelude.Int.{pos}
use sbs_server.Effects.Ledger.{tally, opened, closed, forked, reaped, added, removed}
use sbs_server.FrameSlot.Release.{published}
use sbs_server.SourceSup.Worker.{entry_free}
use sbs_server.SourceSup.System.{worker_exits, restart_timeout, step, run}
use sbs_server.SourceSup.Invariant.{IsValid}
use sbs_server.SourceSup.Invariant.Steps.{run-IsValid}
use sbs_server.SourceSup.Ledger.{fds, procs, sources, count}
use sbs_server.SourceSup.Ledger.Steps.{run-entry_free}
use sbs_server.SourceSup.Restarts.{any_fork, run-budget}
use sbs_server.SourceSup.Recovery.{exit-restart}
use sbs_server.SourceSup.Supervisor.{new, start_source}
use sbs_server.SourceSup.Shutdown.{entries, shutdown_all}
use sbs_server.SourceSup.Operations.{apply_all, IsSound}
use sbs_server.SourceSup.Operations.Start.{FailsClean, start_source-FailsClean}
use sbs_server.SourceSup.Operations.Valid.{apply_all-IsSound}
use sbs_server.Table.{lookup}
use sbs_server.SourceSup.Operations.Stop.{Stops, stop_source-Stops}
use sbs_server.SourceSup.Supervisor.{stop_source}
use sbs_server.SourceSup.Operations.Life.{new-IsSound, apply_all-shutdown_all}
use sbs_server.SourceSup.Metrics.{get_metrics}
use sbs_server.SourceSup.Metrics.Count.{
  Counts, Runs, Retries, IsStale, most_attempts, get_metrics-Counts,
}
use sbs_server.SourceSup.Tests.Samples.{
  camera, good, unbound, entry, started, started-IsValid, crash, crash_sane, crash-IsTidy, roomy,
  server, evening, evening_sane, evening_tidy, evening_quiet, one, running,
}

run-IsValid_example : IsValid (run started crash).0
run-IsValid_example = run-IsValid started crash crash_sane started-IsValid

run-entry_free_example :
    let (s', calls) = run started crash in
    let whole = calls ++ entry_free s'.entry in
    (fds 23 started.entry + tally (opened 23) whole
      ≡ tally (closed 23) whole + tally (published 23) whole)
    × (procs 23 started.entry + tally (forked 23) calls ≡ tally (reaped 23) whole)
    × (sources 23 started.entry + count 23 started.restarts + tally (added 23) calls
        ≡ tally (removed 23) whole + count 23 s'.restarts)
run-entry_free_example =
    run-entry_free 23 started crash (omega arith) crash_sane crash-IsTidy started-IsValid

run-budget_example : tally any_fork (run started crash).1 ≤ 10 - 0 + 0
run-budget_example =
    run-budget started crash crash_sane (tt, (tt, (tt, (tt, (tt, tt))))) started-IsValid

exit-restart_example :
    let s' = (step started (worker_exits unbound)).0 in
    let s'' = (step s' (restart_timeout good)).0 in
    (s'.entry.pid ≡ 0) × (s'.restarts ≡ 15 ∷ []) × (s''.entry.pid ≡ 100)
exit-restart_example =
    exit-restart started unbound good 100 started-IsValid (omega arith) refl (omega arith) (record {
      socket = λ e. ground (arith, e);
      bind_ok = refl;
      listen_ok = refl;
      pipe = λ e. ground (arith, e);
      fork = refl;
    })

start_source-FailsClean_example :
    FailsClean 5 server (start_source server camera true roomy unbound)
start_source-FailsClean_example =
    start_source-FailsClean 5 server camera true roomy unbound (omega arith)

apply_all-IsSound_example : IsSound (apply_all server evening).0
apply_all-IsSound_example =
    apply_all-IsSound server evening evening_sane
      (new-IsSound (codes "/usr/bin/sbs-worker") (codes "/run/sbs"))

apply_all-shutdown_all_example :
    let (sup, calls) = apply_all (new (codes "/usr/bin/sbs-worker") (codes "/run/sbs")) evening in
    let (sup', last) = shutdown_all sup ((λ pid. false) ∷ []) ((λ pid. true) ∷ []) in
    let whole = calls ++ last in
    (sup'.sources ≡ [])
    × (tally (opened 23) whole ≡ tally (closed 23) whole + tally (published 23) whole)
    × (tally (forked 23) whole ≡ tally (reaped 23) whole)
    × (tally (added 23) whole ≡ tally (removed 23) whole)
apply_all-shutdown_all_example =
    apply_all-shutdown_all 23 (codes "/usr/bin/sbs-worker") (codes "/run/sbs") evening
      ((λ pid. false) ∷ []) ((λ pid. true) ∷ []) (omega arith) evening_sane evening_tidy
      evening_quiet

one-small : length (entries one.sources) < 2 ^ 32
unfolding entries
one-small = omega arith

get_metrics-Counts_example :
    let es = entries one.sources in
    let m = get_metrics one (pos 6000000) in
    (m.total_sources ≡ length es)
    × Counts Runs es m.connected_sources
    × Counts Retries es m.restarting_sources
    × Counts (IsStale (pos 6000000)) es m.stale_sources
    × (m.max_restart_attempts ≡ most_attempts es)
    × ((m.degraded ≡ true) ↔ (0 < m.restarting_sources + m.stale_sources))
get_metrics-Counts_example = get_metrics-Counts one (pos 6000000) one-small

running_there : lookup (codes "cam") one.sources ≡ some running
unfolding lookup str_eq
running_there = refl

stop_source-Stops_example : Stops 8 one (codes "cam") running (stop_source one (codes "cam"))
stop_source-Stops_example =
    stop_source-Stops 8 one (codes "cam") running (omega arith) running_there
