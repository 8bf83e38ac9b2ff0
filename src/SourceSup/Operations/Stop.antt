-- ===== src/SourceSup/Operations/Stop.antt =====
-- `stop_source`.
use sbs_server.Prelude.{ℕ, ◌≡◌, ◌≢◌, refl, true, none, some, List, arith}
use sbs_server.Prelude.Bytes.{Bytes, str_eq_iff}
use sbs_server.Table.{lookup, remove}
use sbs_server.Table.Laws.{lookup-remove}
use sbs_server.Effects.{Effect}
use sbs_server.Effects.Ledger.{tally, closed, reaped}
use sbs_server.SourceSup.Types.{Entry, Code, ok}
use sbs_server.SourceSup.Worker.{entry_free}
use sbs_server.SourceSup.System.{System}
use sbs_server.SourceSup.Ledger.{fds, procs}
use sbs_server.SourceSup.Ledger.Steps.{entry_free-gone}
use sbs_server.SourceSup.Supervisor.{Supervisor, stop_source}
use sbs_server.SourceSup.Operations.Totals.{closing-gone}

-- What a stop leaves of the source `id`, which was `s`.
abbrev pub Stops : ℕ → Supervisor → Bytes → System → Code × Supervisor × List Effect → Type 0
Stops x sup id s (code, sup', calls) =
    (code ≡ ok)
    × (lookup id sup'.sources ≡ none)
    × ((j : Bytes) → id ≢ j → lookup j sup'.sources ≡ lookup j sup.sources)
    × (tally (closed x) calls ≡ fds x s.entry)
    × (tally (reaped x) calls ≡ procs x s.entry)

gone_self : (sup : Supervisor) (id : Bytes) → lookup id (remove id sup.sources) ≡ none
gone_self sup id = ground (arith, lookup-remove id id sup.sources, str_eq_iff id id)

others_stay :
    (sup : Supervisor) (id j : Bytes)
    → id ≢ j
    → lookup j (remove id sup.sources) ≡ lookup j sup.sources
others_stay sup id j apart = ground (arith, lookup-remove id j sup.sources, str_eq_iff id j)

-- Stopping a source that is there succeeds: it is no longer there, every other source is as it was,
-- and each descriptor and process of the source, other than 0, is closed or reaped as often as the
-- source holds it.
pub stop_source-Stops :
    (x : ℕ) (sup : Supervisor) (id : Bytes) (s : System)
    → x ≢ 0
    → lookup id sup.sources ≡ some s
    → Stops x sup id s (stop_source sup id)
unfolding stop_source
stop_source-Stops x sup id s real found =
    let closing : Entry = record (s.entry) { shutting_down = true } in
    let quiet = closing-gone x closing (entry_free closing) in
    let gone = entry_free-gone x closing real in
    rw (found, stop_source)
      (
        refl,
        gone_self sup id,
        others_stay sup id,
        omega (arith, quiet, gone),
        omega (arith, quiet, gone),
      )
