-- ===== src/SourceSup/Metrics/Count.antt =====
-- The metrics against counts of the sources of each kind.
use sbs_server.Prelude.{
  refl, inl, inr, Bool-cases, Option-cases, ◌≢◌, some, ℕ, ◌+◌, ◌^◌, ◌≤◌, ◌<◌, ◌≡◌, ◌↔◌, Bool, true,
  false, ◌&&◌, List, [], ◌∷◌, if◌then◌else◌, ltb, arith, length,
}
use sbs_server.Prelude.Bytes.{codes, str_eq, str_eq_iff}
use sbs_server.Prelude.Int.{ℤ, pos, negsuc, sub_ℤ, compare_ℤ}
use sbs_server.SourceSup.Types.{Entry, source_stale_usec}
use sbs_server.SourceSup.Supervisor.{Supervisor}
use sbs_server.SourceSup.Shutdown.{entries}
use sbs_server.SourceSup.Metrics.{
  type_is_static, gt_ℤ, connected_now, restarting_now, stale_now, Metrics, zero_metrics,
  count_entry, count_entries, get_metrics,
}

-- The number of entries that satisfy a test, and the greatest number of attempts.
abbrev pub how_many : (Entry → Bool) → List Entry → ℕ
how_many p [] = 0
how_many p (e ∷ es) = if p e then how_many p es + 1 else how_many p es

abbrev pub most_attempts : List Entry → ℕ
most_attempts [] = 0
most_attempts (e ∷ es) =
    let rest = most_attempts es in if ltb rest e.restart_attempts then e.restart_attempts else rest

how_many-le : (p : Entry → Bool) (es : List Entry) → how_many p es ≤ length es
how_many-le p [] = omega arith
how_many-le p (e ∷ es) = ground (arith, how_many-le p es)

abbrev larger : ℕ → ℕ → ℕ
larger a b = if ltb a b then b else a

-- The loop from a partial count.
count_entries-adds :
    (now : ℤ) (es : List Entry) (m : Metrics)
    → m.total_sources + length es < 2 ^ 32
    → m.connected_sources ≤ m.total_sources
    → m.restarting_sources ≤ m.total_sources
    → m.stale_sources ≤ m.total_sources
    → let r = count_entries now es m in
      (r.total_sources ≡ m.total_sources + length es)
      × (r.connected_sources ≡ m.connected_sources + how_many connected_now es)
      × (r.restarting_sources ≡ m.restarting_sources + how_many restarting_now es)
      × (r.stale_sources ≡ m.stale_sources + how_many (stale_now now) es)
      × (r.max_restart_attempts ≡ larger m.max_restart_attempts (most_attempts es))
unfolding count_entries
count_entries-adds now [] m small c s t = ground arith
count_entries-adds now (e ∷ es) m small c s t = ground (
  arith,
  count_entries-adds now es (count_entry now e m) (ground arith) (ground arith) (ground arith)
      (ground arith),
)

-- A source that runs: it has a process and a connection.
abbrev pub Runs : Entry → Type 0
Runs e = (e.pid ≢ 0) × ((fd : ℕ) × (e.conn_fd ≡ some fd))

-- One that failed and is not up again, and is not being shut down.
abbrev pub Retries : Entry → Type 0
Retries e = (e.shutting_down ≡ false) × (0 < e.restart_attempts) × ¬ (Runs e)

-- There was a last frame, more than five seconds ago.
abbrev pub Late : ℤ → ℤ → Type 0
Late now last =
    (frame : ℕ) × (time : ℕ) × (last ≡ pos frame)
    × (now ≡ pos time)
    × (0 < frame)
    × (frame + 5000000 < time)

-- One that runs, is no image, and whose last frame is too old.
abbrev pub IsStale : ℤ → Entry → Type 0
IsStale now e = Runs e × (e.source_type ≢ codes "image") × Late now e.last_frame_time

-- The number of the entries of a list with a property.
pub data Counts (P : Entry → Type 0) : List Entry → ℕ → Type 0 where
  none_left : Counts P [] 0
  hit : (e : Entry) (es : List Entry) (n : ℕ) → P e → Counts P es n → Counts P (e ∷ es) (n + 1)
  miss : (e : Entry) (es : List Entry) (n : ℕ) → ¬ (P e) → Counts P es n → Counts P (e ∷ es) n

how_many-Counts :
    (P : Entry → Type 0) (p : Entry → Bool) (es : List Entry)
    → ((e : Entry) → (p e ≡ true) ↔ P e)
    → Counts P es (how_many p es)
how_many-Counts P p [] h = none_left
how_many-Counts P p (e ∷ es) h = elim (Bool-cases (p e)) [
  | inl in_it ↦ rw in_it (hit e es (how_many p es) ((h e).0 in_it) (how_many-Counts P p es h))
  | inr out ↦ rw out (
      miss e es (how_many p es) (λ holds. absurd (ground (arith, (h e).1 holds, out)))
        (how_many-Counts P p es h))
]

connected_now-Runs : (e : Entry) → (connected_now e ≡ true) ↔ Runs e
unfolding connected_now
connected_now-Runs e = elim (Option-cases e.conn_fd) [
  | inl c ↦ (λ h. absurd (ground (arith, h, c)), λ r. absurd (ground (arith, r, c)))
  | inr (fd, c) ↦ (λ h. (ground (arith, h), (fd, c)), λ r. ground (arith, r.0, c))
]

restarting_now-Retries : (e : Entry) → (restarting_now e ≡ true) ↔ Retries e
unfolding restarting_now
restarting_now-Retries e = (
  λ h. (
    ground (arith, h),
    ground (arith, h),
    λ r. absurd (ground (arith, h, (connected_now-Runs e).1 r)),
  ),
  λ r. elim (Bool-cases (connected_now e)) [
    | inl c ↦ absurd (r.2 ((connected_now-Runs e).0 c))
    | inr c ↦ ground (arith, r.0, r.1, c)
  ],
)

-- The two tests of `stale_now` on times.
late_now : ℤ → ℤ → Bool
late_now now last = gt_ℤ last (pos 0) && gt_ℤ (sub_ℤ now last) (pos source_stale_usec)

late_now-Late : (now last : ℤ) → (late_now now last ≡ true) ↔ Late now last
unfolding late_now compare_ℤ sub_ℤ
late_now-Late (pos time) (pos frame) =
    (λ h. (frame, time, refl, refl, ground (arith, h), ground (arith, h)), λ l. ground (arith, l))
late_now-Late (pos time) (negsuc frame) =
    (λ h. absurd (ground (arith, h)), λ l. absurd (ground (arith, l.2)))
late_now-Late (negsuc time) (pos frame) =
    (λ h. absurd (ground (arith, h)), λ l. absurd (ground (arith, l.3)))
late_now-Late (negsuc time) (negsuc frame) =
    (λ h. absurd (ground (arith, h)), λ l. absurd (ground (arith, l.2)))

stale_now-IsStale : (now : ℤ) (e : Entry) → (stale_now now e ≡ true) ↔ IsStale now e
unfolding stale_now type_is_static late_now
stale_now-IsStale now e = (
  λ h. (
    (connected_now-Runs e).0 (ground (arith, h)),
    λ image. absurd (ground (arith, h, (str_eq_iff e.source_type (codes "image")).1 image)),
    (late_now-Late now e.last_frame_time).0 (ground (arith, h)),
  ),
  λ r. elim (Bool-cases (str_eq e.source_type (codes "image"))) [
    | inl i ↦ absurd (r.1 ((str_eq_iff e.source_type (codes "image")).0 i))
    | inr i ↦
        ground (arith, i, (connected_now-Runs e).1 r.0, (late_now-Late now e.last_frame_time).1 r.2)
  ],
)

-- The metrics as counts of the tests.
counted :
    (sup : Supervisor) (now : ℤ)
    → length (entries sup.sources) < 2 ^ 32
    → let es = entries sup.sources in
      let m = get_metrics sup now in
      (m.total_sources ≡ length es)
      × (m.connected_sources ≡ how_many connected_now es)
      × (m.restarting_sources ≡ how_many restarting_now es)
      × (m.stale_sources ≡ how_many (stale_now now) es)
      × (m.max_restart_attempts ≡ most_attempts es)
      × ((m.degraded ≡ true) ↔ (0 < how_many restarting_now es + how_many (stale_now now) es))
unfolding get_metrics
counted sup now small = ground (
  arith,
  count_entries-adds now (entries sup.sources) zero_metrics (omega (arith, small)) (omega arith)
      (omega arith) (omega arith),
)

-- With fewer than 2^32 sources, the metrics are: the number of the sources; of those with a process
-- and a connection; of those without one or the other that failed and are not being shut down; of
-- those with both that are no image and whose last frame is more than 5000000 microseconds old; the
-- greatest number of failures. It is degraded just if one of the third or the fourth kind is there.
pub get_metrics-Counts :
    (sup : Supervisor) (now : ℤ)
    → length (entries sup.sources) < 2 ^ 32
    → let es = entries sup.sources in
      let m = get_metrics sup now in
      (m.total_sources ≡ length es)
      × Counts Runs es m.connected_sources
      × Counts Retries es m.restarting_sources
      × Counts (IsStale now) es m.stale_sources
      × (m.max_restart_attempts ≡ most_attempts es)
      × ((m.degraded ≡ true) ↔ (0 < m.restarting_sources + m.stale_sources))
get_metrics-Counts sup now small =
    let es = entries sup.sources in
    let whole = counted sup now small in
    (
      whole.0,
      rw (whole.1) (how_many-Counts Runs connected_now es connected_now-Runs),
      rw (whole.2) (how_many-Counts Retries restarting_now es restarting_now-Retries),
      rw (whole.3) (how_many-Counts (IsStale now) (stale_now now) es (stale_now-IsStale now)),
      whole.4,
      rw (whole.2, whole.3) (whole.5),
    )
