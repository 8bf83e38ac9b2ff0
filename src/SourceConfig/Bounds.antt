-- ===== src/SourceConfig/Bounds.antt =====
-- The numbers that a worker is started with.
use sbs_server.Prelude.{
  ℕ, ◌≤◌, ◌≡◌, refl, ◌||◌, Option, none, some, [], ◌∷◌, ltb, arith, if_elim, ◌⊎◌, inl, inr,
}
use sbs_server.Prelude.Bytes.{Bytes, codes}
use sbs_server.Table.{Table}
use sbs_server.SceneGraph.Types.{
  Source, Canvas, SourceKind, v4l2src, uridecodebin, videotestsrc, image, text, vfmcap, alsa_audio,
}
use sbs_server.SourceSup.Types.{StartConfig}
use sbs_server.SourceConfig.{
  Readers, config_u32, config_rate, common_config, kind_config, fill, within, config_string,
}

within_elim :
    (P : ℕ → Type 0) (fallback low high : ℕ) (parsed : Option ℕ)
    → P fallback
    → ((n : ℕ) → low ≤ n → n ≤ high → P n)
    → P (within fallback low high parsed)
within_elim P fallback low high none pf pn = pf
within_elim P fallback low high (some n) pf pn =
    if_elim P (ltb n low || ltb high n) (λ _. pf) (λ inside. pn n (ground arith) (ground arith))

-- What holds of the fallback and of the numbers in the range holds of what is read.
config_u32_elim :
    (P : ℕ → Type 0) (c : Readers) (source : Source) (key : Bytes) (fallback low high : ℕ)
    → P fallback
    → ((n : ℕ) → low ≤ n → n ≤ high → P n)
    → P (config_u32 c source key fallback low high)
unfolding config_u32
config_u32_elim P c source key fallback low high pf pn = read (config_string source key)
  where
    read :
        (value : Option Bytes)
        → P (elim value [
          | none ↦ fallback
          | some [] ↦ fallback
          | some (b ∷ bs) ↦ within fallback low high (c.strtoull (b ∷ bs))
        ])
    read none = pf
    read (some []) = pf
    read (some (b ∷ bs)) = within_elim P fallback low high (c.strtoull (b ∷ bs)) pf pn

config_u32-le :
    (c : Readers) (source : Source) (key : Bytes) (fallback low high top : ℕ)
    → fallback ≤ top
    → high ≤ top
    → config_u32 c source key fallback low high ≤ top
config_u32-le c source key fallback low high top f h =
    config_u32_elim (λ n. n ≤ top) c source key fallback low high f (λ n a b. omega arith)

config_u32-ge :
    (c : Readers) (source : Source) (key : Bytes) (fallback low high : ℕ)
    → low ≤ fallback
    → low ≤ config_u32 c source key fallback low high
config_u32-ge c source key fallback low high f =
    config_u32_elim (λ n. low ≤ n) c source key fallback low high f (λ n a b. a)

config_rate-den :
    (c : Readers) (source : Source) (key : Bytes) (num den : ℕ)
    → 1 ≤ (config_rate c source key num den).1
unfolding config_rate
config_rate-den c source key num den = ground arith

-- The sizes and rates of each kind.
abbrev pub IsFit : SourceKind → Canvas → StartConfig → Type 0
IsFit videotestsrc canvas cfg =
    (cfg.width ≤ canvas.width)
    × (cfg.height ≤ canvas.height)
    × (1 ≤ cfg.framerate_num)
    × (cfg.framerate_num ≤ 120)
    × (cfg.framerate_den ≡ 1)
IsFit image canvas cfg =
    (cfg.width ≤ canvas.width)
    × (cfg.height ≤ canvas.height)
    × (1 ≤ cfg.framerate_num)
    × (cfg.framerate_num ≤ 30)
    × (cfg.framerate_den ≡ 1)
IsFit text canvas cfg =
    (cfg.width ≤ canvas.width)
    × ((cfg.height ≤ canvas.height) ⊎ (cfg.height ≡ 256))
    × (1 ≤ cfg.framerate_num)
    × (cfg.framerate_num ≤ 30)
    × (cfg.framerate_den ≡ 1)
    × (4 ≤ cfg.font_size)
    × (cfg.font_size ≤ 512)
IsFit v4l2src canvas cfg = 1 ≤ cfg.framerate_den
IsFit _ canvas cfg =
    (cfg.width ≡ canvas.width)
    × (cfg.height ≡ canvas.height)
    × (cfg.framerate_num ≡ canvas.fps_num)
    × (cfg.framerate_den ≡ canvas.fps_den)

kind_config-IsFit :
    (c : Readers) (sources : Table Source) (canvas : Canvas) (source : Source) (kind : SourceKind)
    → IsFit kind canvas (kind_config c sources canvas source (common_config c canvas source) kind)
unfolding kind_config common_config
kind_config-IsFit c sources canvas source vfmcap = (refl, refl, refl, refl)
kind_config-IsFit c sources canvas source videotestsrc = (
  config_u32-le c source (codes "width") _ _ _ canvas.width (ground arith) (omega arith),
  config_u32-le c source (codes "height") _ _ _ canvas.height (ground arith) (omega arith),
  config_u32-ge c source (codes "fps") _ _ _ (ground arith),
  config_u32-le c source (codes "fps") _ _ _ 120 (ground arith) (omega arith),
  refl,
)
kind_config-IsFit c sources canvas source image = (
  config_u32-le c source (codes "width") _ _ _ canvas.width (ground arith) (omega arith),
  config_u32-le c source (codes "height") _ _ _ canvas.height (ground arith) (omega arith),
  config_u32-ge c source (codes "fps") _ _ _ (omega arith),
  config_u32-le c source (codes "fps") _ _ _ 30 (omega arith) (omega arith),
  refl,
)
kind_config-IsFit c sources canvas source text = (
  config_u32-le c source (codes "width") _ _ _ canvas.width (ground arith) (omega arith),
  config_u32_elim (λ n. (n ≤ canvas.height) ⊎ (n ≡ 256)) c source (codes "height") 256 16
      canvas.height (inr refl) (λ n low high. inl high),
  config_u32-ge c source (codes "fps") _ _ _ (omega arith),
  config_u32-le c source (codes "fps") _ _ _ 30 (omega arith) (omega arith),
  refl,
  config_u32-ge c source (codes "font_size") _ _ _ (omega arith),
  config_u32-le c source (codes "font_size") _ _ _ 512 (omega arith) (omega arith),
)
kind_config-IsFit c sources canvas source v4l2src =
    config_rate-den c source (codes "framerate") canvas.fps_num canvas.fps_den
kind_config-IsFit c sources canvas source uridecodebin = (refl, refl, refl, refl)
kind_config-IsFit c sources canvas source alsa_audio = (refl, refl, refl, refl)

-- Whatever the source's settings say and however they are read: a test picture and an image are no
-- larger than the canvas and have 1 to 120, or to 30, frames a second; a text is no wider than the
-- canvas and no higher, or 256 high, has 1 to 30 frames a second and letters of 4 to 512; a camera's rate has
-- a denominator other than 0; the other kinds have the canvas's size and rate.
pub fill-IsFit :
    (c : Readers) (sources : Table Source) (canvas : Canvas) (source : Source)
    → IsFit source.kind canvas (fill c sources canvas source).0
unfolding fill
fill-IsFit c sources canvas source = kind_config-IsFit c sources canvas source source.kind
