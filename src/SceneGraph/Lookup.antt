-- ===== src/SceneGraph/Lookup.antt =====
-- `sbs_scene_graph_get_item` after `sbs_scene_graph_add_item`.
use sbs_server.Prelude.{
  ◌≡◌, ◌≢◌, refl, true, false, Option, none, some, List, [], ◌∷◌, ◌++◌, All, All-append, All-mono,
  Bool-cases, inl, inr, arith,
}
use sbs_server.Prelude.Bytes.{Bytes, codes, str_eq, str_eq_iff, str_eq_refl}
use sbs_server.Table.{lookup, insert}
use sbs_server.Table.Laws.{lookup-insert}
use sbs_server.SceneGraph.Types.{Graph, Scene, Source, Item, ItemCreate, ok}
use sbs_server.SceneGraph.Externals.{Externals}
use sbs_server.SceneGraph.Copies.{find_item, or_default}
use sbs_server.SceneGraph.Sources.{bump_version}
use sbs_server.SceneGraph.Scenes.{taken, put_scene, new_item, add_found, add_to, add_item, get_item}
use sbs_server.SceneGraph.Keeps.Items.{All-Permᴰ, All-sort}

abbrev Differs : Bytes → Item → Type 0
Differs id y = str_eq y.id id ≡ false

none-find_item : (id : Bytes) (xs : List Item) → find_item id xs ≡ none → All (Differs id) xs
unfolding find_item
none-find_item id [] e = tt
none-find_item id (y ∷ ys) e = elim (Bool-cases (str_eq y.id id)) [
  | inl hit ↦ absurd (ground arith)
  | inr miss ↦ (miss, none-find_item id ys (rw miss at e))
]

-- Among items of which only `x` has the id, the one found is `x`.
find_item-only :
    (id : Bytes) (x : Item) (xs : List Item)
    → All (λ y. str_eq y.id id ≡ true → y ≡ x) xs
    → find_item id xs ≢ none
    → find_item id xs ≡ some x
unfolding find_item
find_item-only id x [] only there = absurd (there refl)
find_item-only id x (y ∷ ys) only there = elim (Bool-cases (str_eq y.id id)) [
  | inl hit ↦ rw (hit, find_item, only.0 hit) refl
  | inr miss ↦ rw (miss, find_item) (find_item-only id x ys only.1 (rw miss at there))
]

module _ (X : Externals) (id : Bytes) (x : Item) (same : x.id ≡ id) (xs : List Item) where
  append-ne-Differs : (ys : List Item) → All (Differs id) (ys ++ x ∷ []) → ⊥
  append-ne-Differs [] h = ground (arith, str_eq_iff x.id id)
  append-ne-Differs (y ∷ ys) h = append-ne-Differs ys h.1

  pub find_item-sort : find_item id xs ≡ none → find_item id (X.sort (xs ++ x ∷ [])) ≡ some x
  find_item-sort fresh =
      find_item-only id x (X.sort (xs ++ x ∷ []))
        (All-sort (λ y. str_eq y.id id ≡ true → y ≡ x) X (xs ++ x ∷ [])
          (All-append (λ y. str_eq y.id id ≡ true → y ≡ x) xs (x ∷ [])
            (All-mono (Differs id) (λ y. str_eq y.id id ≡ true → y ≡ x) xs (λ y differs hit. cc)
              (none-find_item id xs fresh))
            (λ _. refl, tt)))
        (λ gone. append-ne-Differs xs (
          All-Permᴰ (Differs id) (X.sort_rearranges (xs ++ x ∷ []))
            (none-find_item id (X.sort (xs ++ x ∷ [])) gone)))

found_after :
    (g : Graph) (k id : Bytes) (sc : Scene) (x : Item)
    → find_item id sc.items ≡ some x
    → get_item (bump_version (put_scene g k sc)) k id ≡ some x
found_after g k id sc x e =
    let there : lookup k (insert k sc g.scenes) ≡ some sc =
      ground (arith, lookup-insert k k sc g.scenes, str_eq_refl k) in
    rw (there, get_item) e

taken-false :
    (o : Option Bytes) (id : Bytes) (xs : List Item)
    → o ≡ some id
    → find_item id xs ≡ none
    → taken o xs ≡ false
taken-false none id xs e fresh = cc
taken-false (some a) id xs e fresh = ground arith

default_id : (o : Option Bytes) (id d : Bytes) → o ≡ some id → or_default o d ≡ id
default_id none id d e = cc
default_id (some a) id d e = cc

module _ (X : Externals) (g : Graph) (k source_id id : Bytes) (sc : Scene) (source : Source)
    (p : ItemCreate) (named : p.id ≡ some id) (fresh : find_item id sc.items ≡ none) where
  new_item-id : (new_item X p source source_id).id ≡ id
  unfolding new_item
  new_item-id = default_id p.id id (codes "item-auto") named

  get_item-add_found :
      ((add_found X g k sc source source_id p).0 ≡ ok)
      × (get_item (add_found X g k sc source source_id p).1 k id
          ≡ some (new_item X p source source_id))
  unfolding add_found
  get_item-add_found =
      let x = new_item X p source source_id in
      let items = X.sort (sc.items ++ x ∷ []) in
      rw (taken-false p.id id sc.items named fresh, add_found)
        (
          refl,
          found_after g k id (record sc { items = items }) x
              (find_item-sort X id x new_item-id sc.items fresh),
        )

-- Once `add_item` has added an item under a given id that the scene did not have, `get_item` finds
-- under that id the new item, with what was asked for.
pub get_item-add_item :
    (X : Externals) (g : Graph) (k source_id id : Bytes) (sc : Scene) (source : Source)
    (p : ItemCreate)
    → lookup k g.scenes ≡ some sc
    → p.source_id ≡ some source_id
    → lookup source_id g.sources ≡ some source
    → p.id ≡ some id
    → find_item id sc.items ≡ none
    → ((add_item X g (some k) p).0 ≡ ok)
      × (get_item (add_item X g (some k) p).1 k id ≡ some (new_item X p source source_id))
unfolding add_item add_to new_item
get_item-add_item X g k source_id id sc source p e from shown named fresh =
    rw (from, e, shown, add_item, add_to)
      (get_item-add_found X g k source_id id sc source p named fresh)
