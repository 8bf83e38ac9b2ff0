-- ===== src/SourceSup/Metrics.antt =====
-- `sbs_source_supervisor_get_metrics`.
pub mod Count
use sbs_server.Prelude.{
  ℕ, Bool, true, false, not, ◌&&◌, ◌||◌, List, [], ◌∷◌, if◌then◌else◌, ◌==◌, ltb, is_some, Ordering,
}
use sbs_server.Prelude.Bytes.{Bytes, codes, str_eq}
use sbs_server.Prelude.Int.{ℤ, pos, sub_ℤ, compare_ℤ}
use sbs_server.Prelude.Words.{add32}
use sbs_server.SourceSup.Types.{Entry, source_stale_usec}
use sbs_server.SourceSup.Supervisor.{Supervisor}
use sbs_server.SourceSup.Shutdown.{entries}

-- `source_type_is_static`
unfoldable pub type_is_static : Bytes → Bool
type_is_static source_type = str_eq source_type (codes "image")

-- a > b
abbrev pub gt_ℤ : ℤ → ℤ → Bool
gt_ℤ a b = elim (compare_ℤ a b) [ Ordering.gt ↦ true | _ ↦ false ]

unfoldable pub connected_now : Entry → Bool
connected_now e = not (e.pid == 0) && is_some e.conn_fd

unfoldable pub restarting_now : Entry → Bool
unfolding connected_now
restarting_now e = not e.shutting_down && (ltb 0 e.restart_attempts && not (connected_now e))

-- `now - last_frame_time` is a difference of two times since the system started, which fits.
unfoldable pub stale_now : ℤ → Entry → Bool
unfolding connected_now type_is_static
stale_now now e =
    connected_now e
    && (not (type_is_static e.source_type)
        && (gt_ℤ e.last_frame_time (pos 0)
            && gt_ℤ (sub_ℤ now e.last_frame_time) (pos source_stale_usec)))

-- `sbs_source_supervisor_metrics_t`
pub record Metrics : Type 0 where
  pub total_sources : ℕ
  pub connected_sources : ℕ
  pub restarting_sources : ℕ
  pub stale_sources : ℕ
  pub max_restart_attempts : ℕ
  pub degraded : Bool

abbrev pub zero_metrics : Metrics
zero_metrics = record {
  total_sources = 0;
  connected_sources = 0;
  restarting_sources = 0;
  stale_sources = 0;
  max_restart_attempts = 0;
  degraded = false;
}

abbrev pub inc_if : Bool → ℕ → ℕ
inc_if b n = if b then add32 n 1 else n

-- The body of the loop.
unfoldable pub count_entry : ℤ → Entry → Metrics → Metrics
unfolding connected_now restarting_now stale_now
count_entry now e m = record m {
  total_sources = add32 m.total_sources 1;
  connected_sources = inc_if (connected_now e) m.connected_sources;
  restarting_sources = inc_if (restarting_now e) m.restarting_sources;
  stale_sources = inc_if (stale_now now e) m.stale_sources;
  max_restart_attempts =
      if ltb m.max_restart_attempts e.restart_attempts
      then e.restart_attempts
      else m.max_restart_attempts;
}

unfoldable pub count_entries : ℤ → List Entry → Metrics → Metrics
unfolding count_entry
count_entries now [] m = m
count_entries now (e ∷ es) m = count_entries now es (count_entry now e m)

-- `sbs_source_supervisor_get_metrics`, at the time `now`.
unfoldable pub get_metrics : Supervisor → ℤ → Metrics
unfolding count_entries
get_metrics sup now =
    let m = count_entries now (entries sup.sources) zero_metrics in
    record m { degraded = ltb 0 m.restarting_sources || ltb 0 m.stale_sources }
