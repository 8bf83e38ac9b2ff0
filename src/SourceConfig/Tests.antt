-- ===== src/SourceConfig/Tests.antt =====
-- A test picture with settings.
use sbs_server.Prelude.{true, false, none, some, [], ◌∷◌}
use sbs_server.Prelude.Bytes.{codes, str_eq}
use sbs_server.SceneGraph.Types.{SourceCreate, Canvas, sdr, videotestsrc}
use sbs_server.SceneGraph.Sources.{new_source}
use sbs_server.SourceConfig.{Readers, fill}
use sbs_server.SourceConfig.Bounds.{IsFit, fill-IsFit}

-- Readers that know no number but one.
abbrev readers : Readers
readers = record { same_ascii = str_eq; strtoull = λ s. some 640; scan_rate = λ s. (0, 0, 1) }

abbrev canvas : Canvas
canvas = record {
  width = 1920;
  height = 1080;
  fps_num = 60;
  fps_den = 1;
  color_mode = sdr;
  background_color = codes "#000000";
}

abbrev bars : SourceCreate
bars = record {
  id = some (codes "bars");
  name = none;
  kind = videotestsrc;
  enabled = true;
  keep_alive = false;
  config = some ((codes "width", codes "640") ∷ []);
}

fill-IsFit_example :
    let source = new_source (codes "bars") bars in
    IsFit source.kind canvas (fill readers [] canvas source).0
fill-IsFit_example = fill-IsFit readers [] canvas (new_source (codes "bars") bars)
