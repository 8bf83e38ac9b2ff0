-- ===== src/SourceSup/Operations/Start.antt =====
-- `start_source`: what a failed and what a good start leave.
use sbs_server.Prelude.{
  ℕ, ◌+◌, ◌≡◌, ◌≢◌, ap, Bool, not, Option, none, some, List, [], ◌++◌, if◌then◌else◌, arith,
  if_elim,
}
use sbs_server.Prelude.Bytes.{Bytes}
use sbs_server.Table.{lookup, contains, insert, remove}
use sbs_server.Table.Totals.{remove-insert_absent}
use sbs_server.Effects.{Effect}
use sbs_server.Effects.Ledger.{tally, tally-append, opened, closed, forked, reaped, added, removed}
use sbs_server.FrameSlot.Release.{published}
use sbs_server.SourceSup.Types.{StartConfig, Entry, Code, ok, inval, nomem, io, not_found}
use sbs_server.SourceSup.Worker.{Given, launch, entry_free}
use sbs_server.SourceSup.Invariant.Launch.{IsClean}
use sbs_server.SourceSup.Ledger.{fds, procs, sources}
use sbs_server.SourceSup.Ledger.Launch.{launch-Kept, launch_quiet}
use sbs_server.SourceSup.Ledger.Steps.{entry_free-gone, entry_free_quiet}
use sbs_server.SourceSup.Supervisor.{
  Supervisor, Memory, new_entry, fresh_system, launched, start_new, start_source,
}

pub new_entry-IsClean :
    (sup : Supervisor) (config : StartConfig) (id : Bytes) → IsClean (new_entry sup config id)
unfolding new_entry
new_entry-IsClean sup config id = ground arith

-- As many of each acquired as given up.
abbrev pub IsSquare : ℕ → List Effect → Type 0
IsSquare x calls =
    (tally (opened x) calls ≡ tally (closed x) calls)
    × (tally (forked x) calls ≡ tally (reaped x) calls)
    × (tally (added x) calls ≡ tally (removed x) calls)

abbrev pub Sup3 : Type 0
Sup3 = Code × Supervisor × List Effect

-- A start that does not give `ok` leaves the table as it was and nothing behind.
abbrev pub FailsClean : ℕ → Supervisor → Sup3 → Type 0
FailsClean x sup (ok, sup', calls) = Unit {0}
FailsClean x sup (code, sup', calls) = (sup' ≡ sup) × IsSquare x calls

abbrev pub FromClean : ℕ → Entry → List Effect → Type 0
FromClean x e calls =
    (tally (opened x) calls ≡ fds x e + tally (closed x) calls)
    × (tally (forked x) calls ≡ procs x e + tally (reaped x) calls)
    × (tally (added x) calls ≡ sources x e + tally (removed x) calls)
    × (tally (published x) calls ≡ 0)

freed-IsSquare :
    (x : ℕ) (e : Entry) (calls : List Effect)
    → x ≢ 0
    → FromClean x e calls
    → IsSquare x (calls ++ entry_free e)
freed-IsSquare x e calls real h = omega (
  arith,
  h,
  entry_free-gone x e real,
  entry_free_quiet x e,
  tally-append (opened x) calls (entry_free e),
  tally-append (closed x) calls (entry_free e),
  tally-append (forked x) calls (entry_free e),
  tally-append (reaped x) calls (entry_free e),
  tally-append (added x) calls (entry_free e),
  tally-append (removed x) calls (entry_free e),
)

pub launch-FromClean :
    (x : ℕ) (e : Entry) (w : Given) → x ≢ 0 → IsClean e → FromClean x (launch e w).1 (launch e w).2
launch-FromClean x e w real h =
    let clean : (fds x e ≡ 0) × (procs x e ≡ 0) × (sources x e ≡ 0) = ground (arith, h) in
    omega (arith, launch-Kept x e w real h, launch_quiet x e w real h, clean)

pub failed-FailsClean :
    (x : ℕ) (sup : Supervisor) (id : Bytes) (e : Entry) (calls : List Effect)
    → x ≢ 0
    → lookup id sup.sources ≡ none
    → FromClean x e calls
    → (record sup { sources = remove id (insert id (fresh_system e) sup.sources) } ≡ sup)
      × IsSquare x (calls ++ entry_free e)
failed-FailsClean x sup id e calls real absent h = (
  ap (λ m. record sup { sources = m })
      (remove-insert_absent id (fresh_system e) sup.sources absent),
  freed-IsSquare x e calls real h,
)

launched-FailsClean :
    (x : ℕ) (sup : Supervisor) (id : Bytes) (r : Code × Entry × List Effect)
    → x ≢ 0
    → lookup id sup.sources ≡ none
    → FromClean x r.1 r.2
    → FailsClean x sup (launched sup id r)
unfolding launched
launched-FailsClean x sup id (ok, e, calls) real absent h = tt
launched-FailsClean x sup id (inval, e, calls) real absent h =
    failed-FailsClean x sup id e calls real absent h
launched-FailsClean x sup id (nomem, e, calls) real absent h =
    failed-FailsClean x sup id e calls real absent h
launched-FailsClean x sup id (io, e, calls) real absent h =
    failed-FailsClean x sup id e calls real absent h
launched-FailsClean x sup id (not_found, e, calls) real absent h =
    failed-FailsClean x sup id e calls real absent h

start_new_elim :
    (P : Sup3 → Type 0) (sup : Supervisor) (config : StartConfig) (id : Bytes) (memory : Memory)
    (w : Given)
    → P (inval, sup, [])
    → P (nomem, sup, [])
    → (lookup id sup.sources ≡ none → P (launched sup id (launch (new_entry sup config id) w)))
    → P (start_new sup config id memory w)
unfolding start_new
start_new_elim P sup config id memory w pi pn pl =
    if_elim P (contains id sup.sources) (λ _. pi)
      (λ absent.
        if_elim P (not memory.entry) (λ _. pn)
          (λ _. if_elim P (not memory.path) (λ _. pn) (λ _. pl (ground (arith, absent)))))

-- What holds of a refusal and of a launch under a new name holds of a start.
pub start_elim :
    (P : Sup3 → Type 0) (sup : Supervisor) (config : StartConfig) (slot : Bool) (memory : Memory)
    (w : Given)
    → P (inval, sup, [])
    → P (nomem, sup, [])
    → ((id : Bytes)
        → lookup id sup.sources ≡ none
        → P (launched sup id (launch (new_entry sup config id) w)))
    → P (start_source sup config slot memory w)
unfolding start_source
start_elim P sup config slot memory w pi pn pl = start_named config.source_id
  where
    start_named :
        (id : Option Bytes)
        → P (elim id [
          | none ↦ (inval, sup, [])
          | some id ↦ if slot then start_new sup config id memory w else (inval, sup, [])
        ])
    start_named none = pi
    start_named (some id) =
        if_elim P slot (λ _. start_new_elim P sup config id memory w pi pn (pl id)) (λ _. pi)

-- A start that does not succeed, whatever the kernel answers, leaves the supervisor exactly as it was,
-- and of every descriptor, process and event source other than 0 it closes, reaps or removes as many as
-- it made.
pub start_source-FailsClean :
    (x : ℕ) (sup : Supervisor) (config : StartConfig) (slot : Bool) (memory : Memory) (w : Given)
    → x ≢ 0
    → FailsClean x sup (start_source sup config slot memory w)
start_source-FailsClean x sup config slot memory w real =
    start_elim (FailsClean x sup) sup config slot memory w (ground arith) (ground arith)
      (λ id absent.
        launched-FailsClean x sup id (launch (new_entry sup config id) w) real absent
          (launch-FromClean x (new_entry sup config id) w real (new_entry-IsClean sup config id)))
