-- ===== src/SourceSup/Operations/Totals.antt =====
-- The descriptors and processes of all entries together, over every operation.
use sbs_server.Prelude.{
  ℕ, ◌+◌, ◌≡◌, ◌≢◌, refl, sym, subst, Bool, true, false, not, none, some, List, [], ◌∷◌, ◌++◌,
  Option, arith, if_elim, Option-cases, inl, inr,
}
use sbs_server.Prelude.Bytes.{Bytes}
use sbs_server.Table.{lookup, insert, remove}
use sbs_server.Table.Laws.{Every-lookup}
use sbs_server.Table.Totals.{total, total-insert_new, total-insert_old, total-remove}
use sbs_server.Effects.{Effect}
use sbs_server.Effects.Ledger.{tally, tally-append, opened, closed, forked, reaped, added, removed}
use sbs_server.FrameSlot.Release.{published}
use sbs_server.SourceSup.Types.{StartConfig, Entry, Code, ok, inval, nomem, io, not_found}
use sbs_server.SourceSup.Worker.{Given, launch, entry_free}
use sbs_server.SourceSup.System.{System, Event, step}
use sbs_server.SourceSup.Invariant.{IsValid}
use sbs_server.SourceSup.Ledger.{fds, procs, sources, count}
use sbs_server.SourceSup.Ledger.Steps.{IsTidy, step-StepKept, entry_free-gone, entry_free_quiet}
use sbs_server.SourceSup.Supervisor.{
  Supervisor, Memory, new_entry, fresh_system, with_muted, launched, start_source, stop_source,
  mute_source, unmute_source, fire, send_shutdown, terminate,
}
use sbs_server.SourceSup.Operations.{Op, starts, stops, mutes, unmutes, fires, apply, IsSound}
use sbs_server.SourceSup.Operations.Start.{
  new_entry-IsClean, FromClean, launch-FromClean, failed-FailsClean, start_elim,
}

abbrev pub fds_of : ℕ → System → ℕ
fds_of x s = fds x s.entry

abbrev pub procs_of : ℕ → System → ℕ
procs_of x s = procs x s.entry

-- The event sources of an entry, its restart timers with them.
abbrev pub sources_of : ℕ → System → ℕ
sources_of x s = sources x s.entry + count x s.restarts

-- What all entries hold and what is acquired is held afterwards or given up.
abbrev pub TotalKept : ℕ → Supervisor → Supervisor → List Effect → Type 0
TotalKept x sup sup' calls =
    (total (fds_of x) sup.sources + tally (opened x) calls
      ≡ total (fds_of x) sup'.sources + tally (closed x) calls + tally (published x) calls)
    × (total (procs_of x) sup.sources + tally (forked x) calls
        ≡ total (procs_of x) sup'.sources + tally (reaped x) calls)
    × (total (sources_of x) sup.sources + tally (added x) calls
        ≡ total (sources_of x) sup'.sources + tally (removed x) calls)

abbrev OutKept : ℕ → Supervisor → Code × Supervisor × List Effect → Type 0
OutKept x sup (code, sup', calls) = TotalKept x sup sup' calls

failed-OutKept :
    (x : ℕ) (sup : Supervisor) (id : Bytes) (e : Entry) (calls : List Effect)
    → x ≢ 0
    → lookup id sup.sources ≡ none
    → FromClean x e calls
    → TotalKept x sup
        (record sup { sources = remove id (insert id (fresh_system e) sup.sources) })
        (calls ++ entry_free e)
failed-OutKept x sup id e calls real absent h =
    let (same, square) = failed-FailsClean x sup id e calls real absent h in
    subst (λ sup'. TotalKept x sup sup' (calls ++ entry_free e)) (sym same)
      (omega
        (arith, square, h, entry_free_quiet x e, tally-append (published x) calls (entry_free e)))

launched-OutKept :
    (x : ℕ) (sup : Supervisor) (id : Bytes) (r : Code × Entry × List Effect)
    → x ≢ 0
    → lookup id sup.sources ≡ none
    → FromClean x r.1 r.2
    → OutKept x sup (launched sup id r)
unfolding launched
launched-OutKept x sup id (ok, e, calls) real absent h = omega (
  arith,
  h,
  total-insert_new (fds_of x) id (fresh_system e) sup.sources absent,
  total-insert_new (procs_of x) id (fresh_system e) sup.sources absent,
  total-insert_new (sources_of x) id (fresh_system e) sup.sources absent,
)
launched-OutKept x sup id (inval, e, calls) real absent h =
    failed-OutKept x sup id e calls real absent h
launched-OutKept x sup id (nomem, e, calls) real absent h =
    failed-OutKept x sup id e calls real absent h
launched-OutKept x sup id (io, e, calls) real absent h =
    failed-OutKept x sup id e calls real absent h
launched-OutKept x sup id (not_found, e, calls) real absent h =
    failed-OutKept x sup id e calls real absent h

start-OutKept :
    (x : ℕ) (sup : Supervisor) (config : StartConfig) (slot : Bool) (memory : Memory) (w : Given)
    → x ≢ 0
    → OutKept x sup (start_source sup config slot memory w)
start-OutKept x sup config slot memory w real =
    start_elim (OutKept x sup) sup config slot memory w (ground arith) (ground arith) (λ id absent.
      launched-OutKept x sup id (launch (new_entry sup config id) w) real absent
        (launch-FromClean x (new_entry sup config id) w real (new_entry-IsClean sup config id)))

-- The messages and signals that precede the freeing change nothing.
pub closing-gone :
    (x : ℕ) (e : Entry) (rest : List Effect)
    → (tally (closed x) (send_shutdown e ++ (terminate e ++ rest)) ≡ tally (closed x) rest)
      × (tally (reaped x) (send_shutdown e ++ (terminate e ++ rest)) ≡ tally (reaped x) rest)
      × (tally (opened x) (send_shutdown e ++ (terminate e ++ rest)) ≡ tally (opened x) rest)
      × (tally (removed x) (send_shutdown e ++ (terminate e ++ rest)) ≡ tally (removed x) rest)
      × (tally (added x) (send_shutdown e ++ (terminate e ++ rest)) ≡ tally (added x) rest)
      × (tally (forked x) (send_shutdown e ++ (terminate e ++ rest)) ≡ tally (forked x) rest)
      × (tally (published x) (send_shutdown e ++ (terminate e ++ rest)) ≡ tally (published x) rest)
closing-gone x e rest = ground arith

abbrev pub NoneDue : Option System → Type 0
NoneDue none = Unit {0}
NoneDue (some s) = s.restarts ≡ []

-- A source that is stopped has no restart timer that is due.
abbrev pub IsQuiet : Supervisor → Op → Type 0
IsQuiet sup (stops id) = NoneDue (lookup id sup.sources)
IsQuiet sup _ = Unit {0}

pub none_due-count : (x : ℕ) (ids : List ℕ) → ids ≡ [] → count x ids ≡ 0
none_due-count x [] e = refl
none_due-count x (id ∷ ids) e = absurd (ground (arith, e))

stop-OutKept :
    (x : ℕ) (sup : Supervisor) (id : Bytes)
    → x ≢ 0
    → IsQuiet sup (stops id)
    → IsSound sup
    → OutKept x sup (stop_source sup id)
unfolding stop_source
stop-OutKept x sup id real quiet h = elim (Option-cases (lookup id sup.sources)) [
  | inl absent ↦ rw (absent, stop_source) (ground arith)
  | inr (s, found) ↦
      let closing : Entry = record (s.entry) { shutting_down = true } in
      rw (found, stop_source)
        (omega (
          arith,
          total-remove (fds_of x) id s sup.sources h.distinct found,
          total-remove (procs_of x) id s sup.sources h.distinct found,
          total-remove (sources_of x) id s sup.sources h.distinct found,
          none_due-count x s.restarts (subst NoneDue found quiet),
          closing-gone x closing (entry_free closing),
          entry_free-gone x closing real,
          entry_free_quiet x closing,
        ))
]

-- One entry is replaced.
replace-TotalKept :
    (x : ℕ) (sup : Supervisor) (id : Bytes) (s s' : System) (calls : List Effect)
    → lookup id sup.sources ≡ some s
    → fds x s.entry + tally (opened x) calls
      ≡ fds x s'.entry + tally (closed x) calls + tally (published x) calls
    → procs x s.entry + tally (forked x) calls ≡ procs x s'.entry + tally (reaped x) calls
    → sources_of x s + tally (added x) calls ≡ sources_of x s' + tally (removed x) calls
    → TotalKept x sup (record sup { sources = insert id s' sup.sources }) calls
replace-TotalKept x sup id s s' calls found f p c = omega (
  arith,
  f,
  p,
  c,
  total-insert_old (sources_of x) id s' s sup.sources found,
  total-insert_old (fds_of x) id s' s sup.sources found,
  total-insert_old (procs_of x) id s' s sup.sources found,
)

step-replaced :
    (x : ℕ) (sup : Supervisor) (id : Bytes) (s : System) (ev : Event)
    → x ≢ 0
    → lookup id sup.sources ≡ some s
    → IsTidy ev
    → IsValid s
    → TotalKept x sup (record sup { sources = insert id (step s ev).0 sup.sources }) (step s ev).1
step-replaced x sup id s ev real found tidy valid =
    let kept = step-StepKept x s ev real tidy valid in
    replace-TotalKept x sup id s (step s ev).0 (step s ev).1 found kept.0 kept.1 kept.2

fire-TotalKept :
    (x : ℕ) (sup : Supervisor) (id : Bytes) (ev : Event)
    → x ≢ 0
    → IsTidy ev
    → IsSound sup
    → TotalKept x sup (fire sup id ev).0 (fire sup id ev).1
unfolding fire
fire-TotalKept x sup id ev real tidy h = elim (Option-cases (lookup id sup.sources)) [
  | inl absent ↦ rw (absent, fire) (ground arith)
  | inr (s, found) ↦
      rw (found, fire)
        (step-replaced x sup id s ev real found tidy
          (Every-lookup (λ id s. IsValid s × (s.entry.source_id ≡ id)) id s sup.sources found
            h.valid).0)
]

muted-TotalKept :
    (x : ℕ) (sup : Supervisor) (id : Bytes) (s : System) (muted : Bool)
    → lookup id sup.sources ≡ some s
    → TotalKept x sup (record sup { sources = insert id (with_muted s muted) sup.sources }) []
muted-TotalKept x sup id s muted found =
    replace-TotalKept x sup id s (with_muted s muted) [] found (omega arith) (omega arith)
      (omega arith)

abbrev MutedKept : ℕ → Supervisor → Code × Supervisor → Type 0
MutedKept x sup r = TotalKept x sup r.1 []

mute-TotalKept : (x : ℕ) (sup : Supervisor) (id : Bytes) → TotalKept x sup (mute_source sup id).1 []
unfolding mute_source
mute-TotalKept x sup id = elim (Option-cases (lookup id sup.sources)) [
  | inl absent ↦ rw (absent, mute_source) (ground arith)
  | inr (s, found) ↦
      rw (found, mute_source)
        (if_elim (MutedKept x sup) s.entry.muted (λ _. ground arith)
          (λ _. muted-TotalKept x sup id s true found))
]

unmute-TotalKept :
    (x : ℕ) (sup : Supervisor) (id : Bytes) → TotalKept x sup (unmute_source sup id).1 []
unfolding unmute_source
unmute-TotalKept x sup id = elim (Option-cases (lookup id sup.sources)) [
  | inl absent ↦ rw (absent, unmute_source) (ground arith)
  | inr (s, found) ↦
      rw (found, unmute_source)
        (if_elim (MutedKept x sup) (not s.entry.muted) (λ _. ground arith)
          (λ _. muted-TotalKept x sup id s false found))
]

-- The messages of a callback are tidy.
abbrev pub IsTidyOp : Op → Type 0
IsTidyOp (fires id ev) = IsTidy ev
IsTidyOp _ = Unit {0}

pub apply-TotalKept :
    (x : ℕ) (sup : Supervisor) (op : Op)
    → x ≢ 0
    → IsTidyOp op
    → IsQuiet sup op
    → IsSound sup
    → TotalKept x sup (apply sup op).0 (apply sup op).1
unfolding apply
apply-TotalKept x sup (starts config slot memory w) real tidy quiet h =
    start-OutKept x sup config slot memory w real
apply-TotalKept x sup (stops id) real tidy quiet h = stop-OutKept x sup id real quiet h
apply-TotalKept x sup (mutes id) real tidy quiet h = mute-TotalKept x sup id
apply-TotalKept x sup (unmutes id) real tidy quiet h = unmute-TotalKept x sup id
apply-TotalKept x sup (fires id ev) real tidy quiet h = fire-TotalKept x sup id ev real tidy h
