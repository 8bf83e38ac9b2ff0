-- ===== src/SceneGraph/Invariant.antt =====
-- The invariant of a scene graph between any two calls: ids and references.
use sbs_server.Prelude.{◌<◌, ◌≡◌, ◌≢◌, true, Option, none, some, [], All}
use sbs_server.Prelude.Bytes.{Bytes}
use sbs_server.Table.{Table, contains}
use sbs_server.Table.Laws.{Every}
use sbs_server.SceneGraph.Types.{Graph, Source, Scene, Item, Output, Transition, Runtime, cut}
use sbs_server.SceneGraph.Names.{valid_id}

-- An entry stands under its own id, which is valid.
abbrev pub IsKeyed : Bytes → Bytes → Type 0
IsKeyed k id = (id ≡ k) × (valid_id k ≡ true)

abbrev pub SourceOk : Bytes → Source → Type 0
SourceOk k s = IsKeyed k s.id

-- Every item shows a source of the graph.
abbrev pub ItemOk : Table Source → Item → Type 0
ItemOk sources x = contains x.source_id sources ≡ true

abbrev pub SceneOk : Table Source → Bytes → Scene → Type 0
SceneOk sources k sc = IsKeyed k sc.id × All (ItemOk sources) sc.items

abbrev pub OutputOk : Bytes → Output → Type 0
OutputOk k o = IsKeyed k o.id

abbrev pub TransitionOk : Bytes → Transition → Type 0
TransitionOk k t = IsKeyed k t.id

-- An id that is NULL or that of an entry.
abbrev pub Names {ℓ} : {V : Type ℓ} → Option Bytes → Table V → Type 0
Names none m = Unit {0}
Names (some id) m = contains id m ≡ true

-- A running transition takes time and is no cut.
abbrev pub RuntimeOk : Runtime → Type 0
RuntimeOk r = r.active ≡ true → (r.kind ≢ cut) × (0 < r.duration_ms)

pub record IsValid (g : Graph) : Type 0 where
  pub sources : Every SourceOk g.sources
  pub scenes : Every (SceneOk g.sources) g.scenes
  pub outputs : Every OutputOk g.outputs
  pub transitions : Every TransitionOk g.transitions
  pub active : Names g.active_scene_id g.scenes
  pub preview : Names g.preview_scene_id g.scenes
  pub default_transition : Names g.default_transition_id g.transitions
  -- Only a graph without scenes has no active scene.
  pub shown : g.active_scene_id ≡ none → g.scenes ≡ []
  pub runtime : RuntimeOk g.runtime
