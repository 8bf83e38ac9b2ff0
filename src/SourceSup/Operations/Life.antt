-- ===== src/SourceSup/Operations/Life.antt =====
-- The whole life of a supervisor: any history, and the shutdown.
use sbs_server.Prelude.{ℕ, ◌+◌, ◌≡◌, ◌≢◌, refl, List, [], ◌∷◌, ◌++◌, Bool, arith, All}
use sbs_server.Prelude.Bytes.{Bytes}
use sbs_server.Table.{Table}
use sbs_server.Table.Totals.{total}
use sbs_server.Effects.Ledger.{tally, tally-append, opened, closed, forked, reaped, added, removed}
use sbs_server.FrameSlot.Release.{published}
use sbs_server.Table.Laws.{Every}
use sbs_server.SourceSup.System.{System}
use sbs_server.SourceSup.Supervisor.{Supervisor, new}
use sbs_server.SourceSup.Shutdown.{entries, shutdown_all}
use sbs_server.SourceSup.Shutdown.Gone.{all_fds, all_procs, all_sources, shutdown_entries-GivesUp}
use sbs_server.SourceSup.Operations.{Op, SaneOp, apply, apply_all, IsSound}
use sbs_server.SourceSup.Operations.Totals.{
  fds_of, procs_of, sources_of, none_due-count, IsQuiet, IsTidyOp, TotalKept, apply-TotalKept,
}
use sbs_server.SourceSup.Operations.Valid.{apply-IsSound}

-- No restart timer of a source is due when the source is stopped, nor any at the end.
abbrev pub AllQuiet : Supervisor → List Op → Type 0
AllQuiet sup [] = Every (λ id s. s.restarts ≡ []) sup.sources
AllQuiet sup (op ∷ ops) = IsQuiet sup op × AllQuiet (apply sup op).0 ops

apply_all-TotalKept :
    (x : ℕ) (sup : Supervisor) (ops : List Op)
    → x ≢ 0
    → All SaneOp ops
    → All IsTidyOp ops
    → AllQuiet sup ops
    → IsSound sup
    → TotalKept x sup (apply_all sup ops).0 (apply_all sup ops).1
unfolding apply_all
apply_all-TotalKept x sup [] real sane tidy quiet h = ground arith
apply_all-TotalKept x sup (op ∷ ops) real sane tidy quiet h =
    let (sup', calls) = apply sup op in
    let rest = (apply_all sup' ops).1 in
    omega (
      arith,
      apply-TotalKept x sup op real tidy.0 quiet.0 h,
      apply_all-TotalKept x sup' ops real sane.1 tidy.1 quiet.1 (apply-IsSound sup op sane.0 h),
      tally-append (opened x) calls rest,
      tally-append (closed x) calls rest,
      tally-append (forked x) calls rest,
      tally-append (reaped x) calls rest,
      tally-append (added x) calls rest,
      tally-append (removed x) calls rest,
      tally-append (published x) calls rest,
    )

entries-total :
    (x : ℕ) (m : Table System)
    → (all_fds x (entries m) ≡ total (fds_of x) m)
      × (all_procs x (entries m) ≡ total (procs_of x) m)
unfolding entries
entries-total x [] = ground arith
entries-total x ((id, s) ∷ m) = omega (arith, entries-total x m)

entries-sources :
    (x : ℕ) (m : Table System)
    → Every (λ id s. s.restarts ≡ []) m
    → all_sources x (entries m) ≡ total (sources_of x) m
unfolding entries
entries-sources x [] h = refl
entries-sources x ((id, s) ∷ m) h =
    omega (arith, none_due-count x s.restarts h.0, entries-sources x m h.1)

pub new-IsSound : (worker_path sock_dir : Bytes) → IsSound (new worker_path sock_dir)
unfolding new
new-IsSound worker_path sock_dir = record { distinct = tt; valid = tt }

empty :
    (x : ℕ) (worker_path sock_dir : Bytes)
    → (total (fds_of x) (new worker_path sock_dir).sources ≡ 0)
      × (total (procs_of x) (new worker_path sock_dir).sources ≡ 0)
      × (total (sources_of x) (new worker_path sock_dir).sources ≡ 0)
unfolding new
empty x worker_path sock_dir = ground arith

shutdown-gone :
    (x : ℕ) (sup : Supervisor) (grace term : List (ℕ → Bool))
    → x ≢ 0
    → Every (λ id s. s.restarts ≡ []) sup.sources
    → let (sup', calls) = shutdown_all sup grace term in
      (sup'.sources ≡ [])
      × (total (fds_of x) sup.sources + tally (opened x) calls ≡ tally (closed x) calls)
      × (total (procs_of x) sup.sources + tally (forked x) calls ≡ tally (reaped x) calls)
      × (total (sources_of x) sup.sources + tally (added x) calls ≡ tally (removed x) calls)
      × (tally (published x) calls ≡ 0)
unfolding shutdown_all
shutdown-gone x sup grace term real none_due =
    let gives_up = shutdown_entries-GivesUp x grace term (entries sup.sources) real in
    let whole = entries-total x sup.sources in
    let sources = entries-sources x sup.sources none_due in
    (
      refl,
      omega (arith, gives_up, whole),
      omega (arith, gives_up, whole),
      omega (arith, gives_up, sources),
      omega (arith, gives_up),
    )

last_quiet :
    (sup : Supervisor) (ops : List Op)
    → AllQuiet sup ops
    → Every (λ id s. s.restarts ≡ []) (apply_all sup ops).0.sources
unfolding apply_all
last_quiet sup [] quiet = quiet
last_quiet sup (op ∷ ops) quiet = last_quiet (apply sup op).0 ops quiet.1

-- From a new supervisor, whatever operations and callbacks follow with sane answers of the kernel, and
-- all workers are then shut down, whatever they do before the deadlines. No message brings one
-- descriptor twice, none comes with a status or a signal change, and no restart timer of a source is due
-- when it is stopped, nor any at the shutdown. Then no source is left; of the numbers other than 0,
-- every descriptor that was opened, duplicated or received with a message has been closed or has gone to
-- a frame slot with a published frame, every process that was forked has been reaped, and every event
-- source that was made has been removed or has ended, each as often.
pub apply_all-shutdown_all :
    (x : ℕ) (worker_path sock_dir : Bytes) (ops : List Op) (grace term : List (ℕ → Bool))
    → x ≢ 0
    → All SaneOp ops
    → All IsTidyOp ops
    → AllQuiet (new worker_path sock_dir) ops
    → let (sup, calls) = apply_all (new worker_path sock_dir) ops in
      let (sup', last) = shutdown_all sup grace term in
      let whole = calls ++ last in
      (sup'.sources ≡ [])
      × (tally (opened x) whole ≡ tally (closed x) whole + tally (published x) whole)
      × (tally (forked x) whole ≡ tally (reaped x) whole)
      × (tally (added x) whole ≡ tally (removed x) whole)
apply_all-shutdown_all x worker_path sock_dir ops grace term real sane tidy quiet =
    let start = new worker_path sock_dir in
    let (sup, calls) = apply_all start ops in
    let last = (shutdown_all sup grace term).1 in
    let ended = shutdown-gone x sup grace term real (last_quiet start ops quiet) in
    let kept =
      apply_all-TotalKept x start ops real sane tidy quiet (new-IsSound worker_path sock_dir) in
    let none_yet = empty x worker_path sock_dir in
    (
      ended.0,
      omega (
        arith,
        ended,
        kept,
        none_yet,
        tally-append (opened x) calls last,
        tally-append (closed x) calls last,
        tally-append (published x) calls last,
      ),
      omega (
        arith,
        ended,
        kept,
        none_yet,
        tally-append (forked x) calls last,
        tally-append (reaped x) calls last,
      ),
      omega (
        arith,
        ended,
        kept,
        none_yet,
        tally-append (added x) calls last,
        tally-append (removed x) calls last,
      ),
    )
