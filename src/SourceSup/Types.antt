-- ===== src/SourceSup/Types.antt =====
-- The data of source_supervisor.c and its header.
use sbs_server.Prelude.{ℕ, Bool, Option, List}
use sbs_server.Prelude.Bytes.{Bytes}
use sbs_server.Prelude.Int.{ℤ}
use sbs_server.Effects.{Effect}

-- BACKOFF_BASE_MS and the other constants
abbrev pub backoff_base_ms : ℕ
backoff_base_ms = 1000

abbrev pub backoff_max_ms : ℕ
backoff_max_ms = 30000

abbrev pub max_restart_attempts : ℕ
max_restart_attempts = 10

abbrev pub shutdown_grace_ms : ℕ
shutdown_grace_ms = 2000

abbrev pub source_stale_usec : ℕ
source_stale_usec = 5000000

-- The codes that the file gives.
pub data Code : Type 0 where
  ok inval nomem io not_found : Code

-- `sbs_source_start_config_t`
pub record StartConfig : Type 0 where
  pub source_id : Option Bytes
  pub source_type : Option Bytes
  pub width : ℕ
  pub height : ℕ
  pub framerate_num : ℕ
  pub framerate_den : ℕ
  pub pattern : Option Bytes
  pub capture_mode : Option Bytes
  pub output_format : Option Bytes
  pub device_path : Option Bytes
  pub format : Option Bytes
  pub framerate : Option Bytes
  pub decode_mode : Option Bytes
  pub uri : Option Bytes
  pub loop : Bool
  pub text : Option Bytes
  pub font_family : Option Bytes
  pub font_path : Option Bytes
  pub text_color : Option Bytes
  pub text_align : Option Bytes
  pub font_size : ℕ

-- `sbs_source_entry_t`: a descriptor below 0 is `none`, a process or event source that is not there
-- is 0. The frame slot, which the caller owns, is an argument where it is used.
pub record Entry : Type 0 where
  pub source_id : Bytes
  pub source_type : Bytes
  pub socket_path : Bytes
  pub pid : ℕ
  pub listen_fd : Option ℕ
  pub conn_fd : Option ℕ
  pub io_watch_id : ℕ
  pub child_watch_id : ℕ
  pub accept_timer_id : ℕ
  pub stable_timer_id : ℕ
  pub restart_attempts : ℕ
  pub last_start_time : ℤ
  pub last_frame_time : ℤ
  pub shutting_down : Bool
  pub muted : Bool
  pub config_copy : StartConfig

-- What an operation leaves: the entry, and the calls it made.
abbrev pub Out : Type 0
Out = Entry × List Effect
