-- ===== src/SourceSup/Operations/Valid.antt =====
-- `IsSound` over every operation.
use sbs_server.Prelude.{
  ◌≡◌, refl, ◌∙◌, Bool, true, false, not, none, List, [], ◌∷◌, arith, if_elim, Option-cases, inl,
  inr, All,
}
use sbs_server.Prelude.Bytes.{Bytes}
use sbs_server.Table.{lookup, insert, remove}
use sbs_server.Table.Laws.{Every-insert, Every-remove, Every-lookup}
use sbs_server.Table.Totals.{insert-IsDistinct, remove-IsDistinct, remove-insert_absent}
use sbs_server.Effects.{Effect}
use sbs_server.SourceSup.Types.{StartConfig, Entry, Code, ok, inval, nomem, io, not_found}
use sbs_server.SourceSup.Worker.{Given, launch}
use sbs_server.SourceSup.System.{System, Event, step}
use sbs_server.SourceSup.Invariant.{Sane, SaneEvent, IsValid, down, waiting, connected, lost}
use sbs_server.SourceSup.Invariant.Launch.{LaunchOk, launch-LaunchOk}
use sbs_server.SourceSup.Invariant.Steps.{step-IsValid}
use sbs_server.SourceSup.Supervisor.{
  Supervisor, Memory, new_entry, fresh_system, with_muted, launched, start_source, stop_source,
  mute_source, unmute_source, fire,
}
use sbs_server.SourceSup.Operations.{
  Op, starts, stops, mutes, unmutes, fires, SaneOp, apply, apply_all, IsSound,
}
use sbs_server.SourceSup.Operations.Start.{new_entry-IsClean, start_elim}
use sbs_server.SourceSup.Operations.Names.{launch-source_id, step-source_id}

-- What an entry of the table satisfies.
abbrev Named : Bytes → System → Type 0
Named id s = IsValid s × (s.entry.source_id ≡ id)

insert-IsSound :
    (sup : Supervisor) (id : Bytes) (s : System)
    → Named id s
    → IsSound sup
    → IsSound (record sup { sources = insert id s sup.sources })
insert-IsSound sup id s named h = record {
  distinct = insert-IsDistinct id s sup.sources h.distinct;
  valid = Every-insert Named id s sup.sources named h.valid;
}

remove-IsSound :
    (sup : Supervisor) (id : Bytes)
    → IsSound sup
    → IsSound (record sup { sources = remove id sup.sources })
remove-IsSound sup id h = record {
  distinct = remove-IsDistinct id sup.sources h.distinct;
  valid = Every-remove Named id sup.sources h.valid;
}

with_muted-Named :
    (id : Bytes) (s : System) (muted : Bool) → Named id s → Named id (with_muted s muted)
with_muted-Named id s muted (down h, n) = (down (ground (arith, h)), n)
with_muted-Named id s muted (waiting h, n) = (waiting (ground (arith, h)), n)
with_muted-Named id s muted (connected h, n) = (connected (ground (arith, h)), n)
with_muted-Named id s muted (lost h, n) = (lost (ground (arith, h)), n)

abbrev SoundOut : Code × Supervisor → Type 0
SoundOut r = IsSound r.1

mute-IsSound : (sup : Supervisor) (id : Bytes) → IsSound sup → IsSound (mute_source sup id).1
unfolding mute_source
mute-IsSound sup id h = elim (Option-cases (lookup id sup.sources)) [
  | inl absent ↦ rw (absent, mute_source) h
  | inr (s, found) ↦
      rw (found, mute_source)
        (if_elim SoundOut s.entry.muted (λ _. h)
          (λ _.
            insert-IsSound sup id (with_muted s true)
              (with_muted-Named id s true (Every-lookup Named id s sup.sources found h.valid)) h))
]

unmute-IsSound : (sup : Supervisor) (id : Bytes) → IsSound sup → IsSound (unmute_source sup id).1
unfolding unmute_source
unmute-IsSound sup id h = elim (Option-cases (lookup id sup.sources)) [
  | inl absent ↦ rw (absent, unmute_source) h
  | inr (s, found) ↦
      rw (found, unmute_source)
        (if_elim SoundOut (not s.entry.muted) (λ _. h)
          (λ _.
            insert-IsSound sup id (with_muted s false)
              (with_muted-Named id s false (Every-lookup Named id s sup.sources found h.valid)) h))
]

stop-IsSound : (sup : Supervisor) (id : Bytes) → IsSound sup → IsSound (stop_source sup id).1
unfolding stop_source
stop-IsSound sup id h = elim (Option-cases (lookup id sup.sources)) [
  | inl absent ↦ rw (absent, stop_source) h
  | inr (s, found) ↦ rw (found, stop_source) (remove-IsSound sup id h)
]

fire-IsSound :
    (sup : Supervisor) (id : Bytes) (ev : Event)
    → SaneEvent ev
    → IsSound sup
    → IsSound (fire sup id ev).0
unfolding fire
fire-IsSound sup id ev sane h = elim (Option-cases (lookup id sup.sources)) [
  | inl absent ↦ rw (absent, fire) h
  | inr (s, found) ↦
      let (valid, name) = Every-lookup Named id s sup.sources found h.valid in
      rw (found, fire)
        (insert-IsSound sup id (step s ev).0
          (step-IsValid s ev sane valid, step-source_id s ev ∙ name) h)
]

abbrev StartOut : Code × Supervisor × List Effect → Type 0
StartOut r = IsSound r.1

gone-IsSound :
    (sup : Supervisor) (id : Bytes) (s : System)
    → lookup id sup.sources ≡ none
    → IsSound sup
    → IsSound (record sup { sources = remove id (insert id s sup.sources) })
gone-IsSound sup id s absent h = record {
  distinct = rw (remove-insert_absent id s sup.sources absent) h.distinct;
  valid = rw (remove-insert_absent id s sup.sources absent) h.valid;
}

new_entry-source_id :
    (sup : Supervisor) (config : StartConfig) (id : Bytes)
    → (new_entry sup config id).source_id ≡ id
unfolding new_entry
new_entry-source_id sup config id = refl

launched-IsSound :
    (sup : Supervisor) (id : Bytes) (r : Code × Entry × List Effect)
    → lookup id sup.sources ≡ none
    → LaunchOk r
    → r.1.source_id ≡ id
    → IsSound sup
    → StartOut (launched sup id r)
unfolding launched
launched-IsSound sup id (ok, e, calls) absent v name h =
    insert-IsSound sup id (fresh_system e) (v, name) h
launched-IsSound sup id (inval, e, calls) absent v name h =
    gone-IsSound sup id (fresh_system e) absent h
launched-IsSound sup id (nomem, e, calls) absent v name h =
    gone-IsSound sup id (fresh_system e) absent h
launched-IsSound sup id (io, e, calls) absent v name h =
    gone-IsSound sup id (fresh_system e) absent h
launched-IsSound sup id (not_found, e, calls) absent v name h =
    gone-IsSound sup id (fresh_system e) absent h

start-IsSound :
    (sup : Supervisor) (config : StartConfig) (slot : Bool) (memory : Memory) (w : Given)
    → Sane w
    → IsSound sup
    → StartOut (start_source sup config slot memory w)
start-IsSound sup config slot memory w sane h =
    start_elim StartOut sup config slot memory w h h (λ id absent.
      let e = new_entry sup config id in
      launched-IsSound sup id (launch e w) absent
        (launch-LaunchOk e w (new_entry-IsClean sup config id) sane)
        (launch-source_id e w ∙ new_entry-source_id sup config id) h)

-- Every operation keeps the table sound: no name stands twice, every entry stands under its own name
-- and is valid. The kernel's answers are sane.
pub apply-IsSound :
    (sup : Supervisor) (op : Op) → SaneOp op → IsSound sup → IsSound (apply sup op).0
unfolding apply
apply-IsSound sup (starts config slot memory w) sane h =
    start-IsSound sup config slot memory w sane h
apply-IsSound sup (stops id) sane h = stop-IsSound sup id h
apply-IsSound sup (mutes id) sane h = mute-IsSound sup id h
apply-IsSound sup (unmutes id) sane h = unmute-IsSound sup id h
apply-IsSound sup (fires id ev) sane h = fire-IsSound sup id ev sane h

-- Every history of operations, with sane answers of the kernel, keeps the table sound.
pub apply_all-IsSound :
    (sup : Supervisor) (ops : List Op)
    → All SaneOp ops
    → IsSound sup
    → IsSound (apply_all sup ops).0
unfolding apply_all
apply_all-IsSound sup [] sane h = h
apply_all-IsSound sup (op ∷ ops) sane h =
    apply_all-IsSound (apply sup op).0 ops sane.1 (apply-IsSound sup op sane.0 h)
