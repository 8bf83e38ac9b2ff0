-- ===== src/SceneGraph/Keeps/Parts.antt =====
-- A valid graph with one entry of a table added or changed, and the lists of items.
use sbs_server.Prelude.{◌≡◌, some}
use sbs_server.Prelude.Bytes.{Bytes}
use sbs_server.Table.{lookup, insert}
use sbs_server.Table.Laws.{Every-insert, Every-lookup}
use sbs_server.SceneGraph.Types.{Graph, Source, Scene, Output, Transition}
use sbs_server.SceneGraph.Sources.{bump_version}
use sbs_server.SceneGraph.Scenes.{put_scene}
use sbs_server.SceneGraph.Filters.{put_source}
use sbs_server.SceneGraph.Invariant.{SourceOk, SceneOk, OutputOk, TransitionOk, IsValid}
use sbs_server.SceneGraph.Keeps.Tables.{Names-insert, scenes_more_sources, lookup-ne-nil}

module _ (g : Graph) (v : IsValid g) where
  pub bump_version-IsValid : IsValid (bump_version g)
  bump_version-IsValid = record {
    sources = v.sources;
    scenes = v.scenes;
    outputs = v.outputs;
    transitions = v.transitions;
    active = v.active;
    preview = v.preview;
    default_transition = v.default_transition;
    shown = v.shown;
    runtime = v.runtime;
  }

  pub put_source-IsValid : (k : Bytes) (s : Source) → SourceOk k s → IsValid (put_source g k s)
  put_source-IsValid k s h = record {
    sources = Every-insert SourceOk k s g.sources h v.sources;
    scenes = scenes_more_sources k s g.sources g.scenes v.scenes;
    outputs = v.outputs;
    transitions = v.transitions;
    active = v.active;
    preview = v.preview;
    default_transition = v.default_transition;
    shown = v.shown;
    runtime = v.runtime;
  }

  pub put_output-IsValid :
      (k : Bytes) (o : Output)
      → OutputOk k o
      → IsValid (record g { outputs = insert k o g.outputs })
  put_output-IsValid k o h = record {
    sources = v.sources;
    scenes = v.scenes;
    outputs = Every-insert OutputOk k o g.outputs h v.outputs;
    transitions = v.transitions;
    active = v.active;
    preview = v.preview;
    default_transition = v.default_transition;
    shown = v.shown;
    runtime = v.runtime;
  }

  pub put_transition-IsValid :
      (k : Bytes) (t : Transition)
      → TransitionOk k t
      → IsValid (record g { transitions = insert k t g.transitions })
  put_transition-IsValid k t h = record {
    sources = v.sources;
    scenes = v.scenes;
    outputs = v.outputs;
    transitions = Every-insert TransitionOk k t g.transitions h v.transitions;
    active = v.active;
    preview = v.preview;
    default_transition =
        Names-insert g.default_transition_id k t g.transitions v.default_transition;
    shown = v.shown;
    runtime = v.runtime;
  }

  -- A scene that is there is replaced.
  pub put_scene-IsValid :
      (k : Bytes) (old sc : Scene)
      → lookup k g.scenes ≡ some old
      → SceneOk g.sources k sc
      → IsValid (put_scene g k sc)
  put_scene-IsValid k old sc e h = record {
    sources = v.sources;
    scenes = Every-insert (SceneOk g.sources) k sc g.scenes h v.scenes;
    outputs = v.outputs;
    transitions = v.transitions;
    active = Names-insert g.active_scene_id k sc g.scenes v.active;
    preview = Names-insert g.preview_scene_id k sc g.scenes v.preview;
    default_transition = v.default_transition;
    shown = λ n. absurd (lookup-ne-nil k old g.scenes e (v.shown n));
    runtime = v.runtime;
  }

  pub found-SourceOk : (k : Bytes) (s : Source) → lookup k g.sources ≡ some s → SourceOk k s
  found-SourceOk k s e = Every-lookup SourceOk k s g.sources e v.sources

  pub found-SceneOk :
      (k : Bytes) (sc : Scene) → lookup k g.scenes ≡ some sc → SceneOk g.sources k sc
  found-SceneOk k sc e = Every-lookup (SceneOk g.sources) k sc g.scenes e v.scenes

  pub found-TransitionOk :
      (k : Bytes) (t : Transition) → lookup k g.transitions ≡ some t → TransitionOk k t
  found-TransitionOk k t e = Every-lookup TransitionOk k t g.transitions e v.transitions
