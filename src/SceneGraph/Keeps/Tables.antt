-- ===== src/SceneGraph/Keeps/Tables.antt =====
-- References after a change of a table.
use sbs_server.Prelude.{
  ◌≡◌, ◌≢◌, refl, true, false, Option, none, some, List, [], ◌∷◌, All, All-mono, arith, Bool-cases,
  inl, inr,
}
use sbs_server.Prelude.Bytes.{Bytes, str_eq, str_eq_iff}
use sbs_server.Table.{Table, lookup, contains, insert, remove, map_values}
use sbs_server.Table.Laws.{
  Every, Every-map_values, contains-map_values, lookup-insert, lookup-remove,
}
use sbs_server.SceneGraph.Types.{Source, Scene, Item}
use sbs_server.SceneGraph.Sources.{drop_items_of, without_source}
use sbs_server.SceneGraph.Invariant.{ItemOk, SceneOk, Names}

module _ {ℓ} {V : Type ℓ} where
  pub contains-insert :
      (k j : Bytes) (v : V) (m : Table V) → contains j m ≡ true → contains j (insert k v m) ≡ true
  contains-insert k j v m h = ground (arith, lookup-insert k j v m)

  pub contains-insert_self : (k : Bytes) (v : V) (m : Table V) → contains k (insert k v m) ≡ true
  contains-insert_self k v m = ground (arith, lookup-insert k k v m, str_eq_iff k k)

  pub contains-remove :
      (k j : Bytes) (m : Table V)
      → str_eq k j ≡ false
      → contains j m ≡ true
      → contains j (remove k m) ≡ true
  contains-remove k j m ne h = ground (arith, lookup-remove k j m)

  pub Names-insert :
      (id : Option Bytes) (k : Bytes) (v : V) (m : Table V) → Names id m → Names id (insert k v m)
  Names-insert none k v m h = tt
  Names-insert (some id) k v m h = contains-insert k id v m h

  pub insert-ne-nil : (k : Bytes) (v : V) (m : Table V) → insert k v m ≢ []
  unfolding insert
  insert-ne-nil k v [] e = cc
  insert-ne-nil k v ((j, w) ∷ m) e = ground arith

  pub lookup-ne-nil : (k : Bytes) (v : V) (m : Table V) → lookup k m ≡ some v → m ≢ []
  unfolding lookup
  lookup-ne-nil k v [] e n = cc
  lookup-ne-nil k v (x ∷ m) e n = cc

  pub nil_of_map_values : (f : V → V) (m : Table V) → m ≡ [] → map_values f m ≡ []
  unfolding map_values
  nil_of_map_values f [] e = refl
  nil_of_map_values f ((j, w) ∷ m) e = cc

-- More sources: the items still show theirs.
pub scenes_more_sources :
    (k : Bytes) (s : Source) (sources : Table Source) (scenes : Table Scene)
    → Every (SceneOk sources) scenes
    → Every (SceneOk (insert k s sources)) scenes
scenes_more_sources k s sources scenes h =
    All-mono (λ e. SceneOk sources e.0 e.1) (λ e. SceneOk (insert k s sources) e.0 e.1) scenes
      (λ e ok. (
        ok.0,
        All-mono (ItemOk sources) (ItemOk (insert k s sources)) e.1.items
            (λ x shown. contains-insert k x.source_id s sources shown) ok.1,
      ))
      h

-- A source less, and the items that showed it.
drop_items_of-ItemOk :
    (k : Bytes) (sources : Table Source) (items : List Item)
    → All (ItemOk sources) items
    → All (ItemOk (remove k sources)) (drop_items_of k items)
unfolding drop_items_of
drop_items_of-ItemOk k sources [] h = tt
drop_items_of-ItemOk k sources (x ∷ xs) h = elim (Bool-cases (str_eq x.source_id k)) [
  | inl hit ↦ rw hit (drop_items_of-ItemOk k sources xs h.1)
  | inr miss ↦ rw miss (
    contains-remove k x.source_id sources
        (ground (arith, str_eq_iff k x.source_id, str_eq_iff x.source_id k)) h.0,
    drop_items_of-ItemOk k sources xs h.1,
  )
]

pub scenes_without_source :
    (k : Bytes) (sources : Table Source) (scenes : Table Scene)
    → Every (SceneOk sources) scenes
    → Every (SceneOk (remove k sources)) (map_values (without_source k) scenes)
scenes_without_source k sources scenes h =
    Every-map_values (SceneOk sources) (without_source k) (SceneOk (remove k sources)) scenes
      (λ j sc ok. (ok.0, drop_items_of-ItemOk k sources sc.items ok.1)) h

pub Names-map_values :
    (id : Option Bytes) (k : Bytes) (scenes : Table Scene)
    → Names id scenes
    → Names id (map_values (without_source k) scenes)
Names-map_values none k scenes h = tt
Names-map_values (some id) k scenes h =
    ground (arith, contains-map_values (without_source k) id scenes)
