-- ===== src/SceneGraph/Types.antt =====
-- src/include/sbs/scene_graph.h: the data of the scene graph, field by field. A `double` is its 64-bit
-- pattern; a `char *` that may be NULL is an option.
use sbs_server.Prelude.{ℕ, Bool, Option, List}
use sbs_server.Prelude.Bytes.{Bytes}
use sbs_server.Prelude.Int.{ℤ}
use sbs_server.Table.{Table}
use sbs_server.FrameSlot.{Slot}

-- SBS_OK, SBS_ERR_INVAL and SBS_ERR_NOT_FOUND
pub data Status : Type 0 where
  ok inval not_found : Status

abbrev pub Double : Type 0
Double = ℕ

-- 0.0 and 1.0
abbrev pub double_zero : Double
double_zero = 0

abbrev pub double_one : Double
double_one = 0x3FF0000000000000

pub data ColorMode : Type 0 where
  sdr hdr10 : ColorMode

pub data SourceKind : Type 0 where
  v4l2src uridecodebin videotestsrc image text vfmcap alsa_audio : SourceKind

pub data TransitionKind : Type 0 where
  cut fade slide : TransitionKind

abbrev pub StrMap : Type 0
StrMap = Table Bytes

pub record Canvas : Type 0 where
  pub width : ℕ
  pub height : ℕ
  pub fps_num : ℕ
  pub fps_den : ℕ
  pub color_mode : ColorMode
  pub background_color : Bytes

pub record AudioBinding : Type 0 where
  pub enabled : Bool
  pub device : Option Bytes
  pub volume : Double
  pub left_gain : Double
  pub right_gain : Double
  pub delay_ms : ℤ
  pub eq_bands : List Double
  pub mute : Bool
  pub monitor : Bool

pub record Filter : Type 0 where
  pub id : Bytes
  pub type : Bytes
  pub enabled : Bool
  pub params : StrMap

pub record Source : Type 0 where
  pub id : Bytes
  pub name : Bytes
  pub kind : SourceKind
  pub enabled : Bool
  pub keep_alive : Bool
  pub config : StrMap
  pub filters : List Filter
  pub audio : AudioBinding
  pub frame_slot : Slot
  pub slot_initialized : Bool
  pub frame_width : ℕ
  pub frame_height : ℕ
  pub color_depth : ℕ
  pub hdr : Bool
  pub color_space : Bytes
  pub hdr_eotf : Bytes
  pub drm_format : ℕ
  pub drm_modifier : ℕ
  pub plane_offset : List ℕ
  pub plane_stride : List ℕ
  pub running : Bool
  pub muted : Bool
  pub runtime_state : Bytes
  pub v4l2_effective_decode_mode : Option Bytes
  pub error_message : Option Bytes

pub record Transform : Type 0 where
  pub position_x : ℤ
  pub position_y : ℤ
  pub width : ℤ
  pub height : ℤ
  pub crop_top : ℤ
  pub crop_bottom : ℤ
  pub crop_left : ℤ
  pub crop_right : ℤ
  pub rotation_deg : Double
  pub flip_horizontal : Bool
  pub flip_vertical : Bool
  pub bounds_type : Option Bytes
  pub alignment : Option Bytes
  pub opacity : Double

pub record Item : Type 0 where
  pub id : Bytes
  pub source_id : Bytes
  pub visible : Bool
  pub locked : Bool
  pub z_order : ℤ
  pub transform : Transform
  pub audio : AudioBinding
  pub filters : List Filter

pub record Scene : Type 0 where
  pub id : Bytes
  pub name : Bytes
  pub items : List Item
  pub filters : List Filter

pub record Sink : Type 0 where
  pub id : Bytes
  pub type : Bytes
  pub enabled : Bool
  pub config : StrMap

pub record Output : Type 0 where
  pub id : Bytes
  pub name : Bytes
  pub enabled : Bool
  pub autostart : Bool
  pub encoder : StrMap
  pub sinks : List Sink
  pub running : Bool
  pub runtime_state : Bytes

pub record Transition : Type 0 where
  pub id : Bytes
  pub kind : TransitionKind
  pub duration_ms : ℕ
  pub params : StrMap

pub record Runtime : Type 0 where
  pub active : Bool
  pub from_scene_id : Option Bytes
  pub to_scene_id : Option Bytes
  pub transition_id : Option Bytes
  pub kind : TransitionKind
  pub duration_ms : ℕ
  pub progress : Double
  pub start_time_us : ℤ

pub record Graph : Type 0 where
  pub canvas : Canvas
  pub sources : Table Source
  pub scenes : Table Scene
  pub outputs : Table Output
  pub transitions : Table Transition
  pub active_scene_id : Option Bytes
  pub preview_scene_id : Option Bytes
  pub default_transition_id : Option Bytes
  pub version : ℕ
  pub runtime : Runtime

-- The parameters of the operations, with their `set_` flags.
pub record SourceCreate : Type 0 where
  pub id : Option Bytes
  pub name : Option Bytes
  pub kind : SourceKind
  pub enabled : Bool
  pub keep_alive : Bool
  pub config : Option StrMap

pub record SourceUpdate : Type 0 where
  pub set_name : Bool
  pub name : Option Bytes
  pub set_enabled : Bool
  pub enabled : Bool
  pub set_keep_alive : Bool
  pub keep_alive : Bool
  pub set_config : Bool
  pub config : Option StrMap

pub record SceneCreate : Type 0 where
  pub id : Option Bytes
  pub name : Option Bytes

pub record OutputCreate : Type 0 where
  pub id : Option Bytes
  pub name : Option Bytes
  pub enabled : Bool
  pub autostart : Bool

pub record TransitionCreate : Type 0 where
  pub id : Option Bytes
  pub kind : TransitionKind
  pub duration_ms : ℕ

pub record ItemCreate : Type 0 where
  pub id : Option Bytes
  pub source_id : Option Bytes
  pub visible : Bool
  pub locked : Bool
  pub z_order : ℤ
  pub transform : Transform
  pub audio : Option AudioBinding

pub record ItemUpdate : Type 0 where
  pub set_visible : Bool
  pub visible : Bool
  pub set_locked : Bool
  pub locked : Bool
  pub set_z_order : Bool
  pub z_order : ℤ
  pub set_transform : Bool
  pub transform : Transform

pub record FilterCreate : Type 0 where
  pub id : Option Bytes
  pub type : Option Bytes
  pub enabled : Bool
  pub params : Option StrMap

pub record FilterUpdate : Type 0 where
  pub set_enabled : Bool
  pub enabled : Bool
  pub params : Option StrMap
