-- ===== src/SourceConfig.antt =====
-- src/server/config/source_start_config.c: what a worker is started with, from a source of the scene
-- graph and the canvas. The functions of the C library and of GLib that read numbers are arguments.
pub mod Bounds
mod Tests
use sbs_server.Prelude.{
  ℕ, Bool, true, false, ◌&&◌, ◌||◌, Option, none, some, [], ◌∷◌, if◌then◌else◌, ltb, leb,
}
use sbs_server.Prelude.Bytes.{Bytes, codes, str_eq}
use sbs_server.Table.{Table, lookup}
use sbs_server.SceneGraph.Types.{
  Source, Canvas, SourceKind, v4l2src, uridecodebin, videotestsrc, image, text, vfmcap,
}
use sbs_server.SceneGraph.Names.{source_kind_name}
use sbs_server.SourceSup.Types.{StartConfig}

-- `g_ascii_strcasecmp(a, b) == 0`; `g_ascii_strtoull` in base 10, `none` if there is no number;
-- `sscanf(s, "%u/%u", ...)`: how many were read, and the two, where one that is not read stays as the
-- code set it.
pub record Readers : Type 0 where
  pub same_ascii : Bytes → Bytes → Bool
  pub strtoull : Bytes → Option ℕ
  pub scan_rate : Bytes → ℕ × ℕ × ℕ

-- `source_config_string`
abbrev pub config_string : Source → Bytes → Option Bytes
config_string source key = lookup key source.config

-- `if (!x) x = y`
abbrev pub or_else : Option Bytes → Option Bytes → Option Bytes
or_else none y = y
or_else (some x) y = some x

-- `source_config_bool`
unfoldable pub config_bool : Readers → Source → Bytes → Bool → Bool
config_bool c source key fallback = elim (config_string source key) [
  | none ↦ fallback
  | some value ↦
      c.same_ascii value (codes "true")
      || (c.same_ascii value (codes "yes") || str_eq value (codes "1"))
]

abbrev pub within : ℕ → ℕ → ℕ → Option ℕ → ℕ
within fallback min_value max_value none = fallback
within fallback min_value max_value (some parsed) =
    if ltb parsed min_value || ltb max_value parsed then fallback else parsed

-- `source_config_u32`
unfoldable pub config_u32 : Readers → Source → Bytes → ℕ → ℕ → ℕ → ℕ
config_u32 c source key fallback min_value max_value = elim (config_string source key) [
  | none ↦ fallback
  | some [] ↦ fallback
  | some (b ∷ bs) ↦ within fallback min_value max_value (c.strtoull (b ∷ bs))
]

abbrev pub or_one : ℕ → ℕ
or_one n = if ltb 0 n then n else 1

abbrev pub rate_of : ℕ → ℕ → ℕ × ℕ × ℕ → ℕ × ℕ
rate_of fallback_num fallback_den (count, num, den) =
    if leb 1 count && ltb 0 num then (num, or_one den) else (fallback_num, or_one fallback_den)

-- `source_config_rate`
unfoldable pub config_rate : Readers → Source → Bytes → ℕ → ℕ → ℕ × ℕ
config_rate c source key fallback_num fallback_den = elim (config_string source key) [
  | none ↦ (fallback_num, or_one fallback_den)
  | some [] ↦ (fallback_num, or_one fallback_den)
  | some (b ∷ bs) ↦ rate_of fallback_num fallback_den (c.scan_rate (b ∷ bs))
]

abbrev pub is_vfmcap : SourceKind → Bool
is_vfmcap vfmcap = true
is_vfmcap _ = false

-- `graph_has_enabled_vfmcap`: a source is known by its name.
unfoldable pub has_enabled_vfmcap : Table Source → Source → Bool
has_enabled_vfmcap [] source = false
has_enabled_vfmcap ((key, other) ∷ m) source =
    let rest = has_enabled_vfmcap m source in
    if str_eq other.id source.id
    then rest
    else if is_vfmcap other.kind && other.enabled
    then true
    else rest

abbrev pub min_of : ℕ → ℕ → ℕ
min_of a b = if ltb a b then a else b

-- Whether media plays again at its end unless the source says.
abbrev pub loops : SourceKind → Bool
loops image = true
loops uridecodebin = true
loops _ = false

-- What is the same for every kind.
unfoldable pub common_config : Readers → Canvas → Source → StartConfig
common_config c canvas source = record {
  source_id = some source.id;
  source_type = some (source_kind_name source.kind);
  width = canvas.width;
  height = canvas.height;
  framerate_num = canvas.fps_num;
  framerate_den = canvas.fps_den;
  pattern = or_else (config_string source (codes "pattern")) (some (codes "smpte"));
  capture_mode = none;
  output_format = none;
  device_path =
      or_else (config_string source (codes "device")) (config_string source (codes "device_path"));
  format = none;
  framerate = none;
  decode_mode = none;
  uri = or_else (config_string source (codes "uri")) (config_string source (codes "path"));
  loop = config_bool c source (codes "loop") (loops source.kind);
  text = none;
  font_family = none;
  font_path = none;
  text_color = none;
  text_align = none;
  font_size = 0;
}

-- The width and height of a kind that is drawn, at most the canvas's.
abbrev pub drawn_width : Readers → Canvas → Source → ℕ
drawn_width c canvas source =
    config_u32 c source (codes "width") (min_of canvas.width 1280) 16 canvas.width

abbrev pub drawn_height : Readers → Canvas → Source → ℕ → ℕ
drawn_height c canvas source fallback =
    config_u32 c source (codes "height") fallback 16 canvas.height

-- The decode mode of a camera.
unfoldable pub decode_mode_of : Table Source → Source → Bytes
decode_mode_of sources source = elim (config_string source (codes "decode_mode")) [
  | none ↦ if has_enabled_vfmcap sources source then codes "software" else codes "auto"
  | some mode ↦
      if str_eq mode (codes "auto") && has_enabled_vfmcap sources source
      then codes "software"
      else mode
]

-- The branch of each kind, over what is common.
unfoldable pub kind_config :
    Readers → Table Source → Canvas → Source → StartConfig → SourceKind → StartConfig
kind_config c sources canvas source cfg vfmcap = record cfg {
  capture_mode = some (codes "passthrough");
  output_format = or_else (config_string source (codes "output_format")) (some (codes "raw"));
  device_path = or_else cfg.device_path (some (codes "/dev/video_cap"));
}
kind_config c sources canvas source cfg videotestsrc = record cfg {
  width = drawn_width c canvas source;
  height = drawn_height c canvas source (min_of canvas.height 720);
  framerate_num =
      config_u32 c source (codes "fps")
        (min_of (if ltb 0 cfg.framerate_num then cfg.framerate_num else 30) 30) 1 120;
  framerate_den = 1;
  capture_mode = config_string source (codes "color_mode");
  output_format = config_string source (codes "output_format");
}
kind_config c sources canvas source cfg image = record cfg {
  width = drawn_width c canvas source;
  height = drawn_height c canvas source (min_of canvas.height 720);
  framerate_num = config_u32 c source (codes "fps") 1 1 30;
  framerate_den = 1;
}
kind_config c sources canvas source cfg v4l2src =
    let (num, den) = config_rate c source (codes "framerate") cfg.framerate_num cfg.framerate_den in
    record cfg {
      width = config_u32 c source (codes "width") cfg.width 16 8192;
      height = config_u32 c source (codes "height") cfg.height 16 8192;
      framerate_num = num;
      framerate_den = den;
      format =
          or_else (config_string source (codes "format")) (config_string source (codes "fourcc"));
      framerate = config_string source (codes "framerate");
      decode_mode = some (decode_mode_of sources source);
    }
kind_config c sources canvas source cfg text = record cfg {
  width = drawn_width c canvas source;
  height = drawn_height c canvas source 256;
  framerate_num = config_u32 c source (codes "fps") 1 1 30;
  framerate_den = 1;
  text = config_string source (codes "text");
  font_family = config_string source (codes "font_family");
  font_path = config_string source (codes "font_path");
  text_color = config_string source (codes "text_color");
  text_align = config_string source (codes "text_align");
  font_size = config_u32 c source (codes "font_size") 72 4 512;
}
kind_config c sources canvas source cfg _ = record cfg {
  capture_mode = config_string source (codes "color_mode");
  output_format = config_string source (codes "output_format");
}

-- What is noted in the source: the decode mode of a camera.
unfoldable pub noted : Source → SourceKind → StartConfig → Source
noted source v4l2src cfg = record source { v4l2_effective_decode_mode = cfg.decode_mode }
noted source _ cfg = source

-- `sbs_source_start_config_fill`, of a canvas and a source that are there.
unfoldable pub fill : Readers → Table Source → Canvas → Source → StartConfig × Source
unfolding common_config kind_config noted
fill c sources canvas source =
    let cfg = kind_config c sources canvas source (common_config c canvas source) source.kind in
    (cfg, noted source source.kind cfg)
