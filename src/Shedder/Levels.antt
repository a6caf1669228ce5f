-- ===== src/Shedder/Levels.antt =====
-- `determineLevel` of src/core/ingress/capacity_shedder.ts. The metrics are floating-point numbers:
-- `N` is their type and `geb` their `>=`.
use veri_node_backend.Prelude.{ℕ, ◌≤◌, ◌≡◌, Bool, true, ◌||◌, arith, if◌then◌else◌}

pub data SheddingLevel : Type 0 where
  calm light medium critical : SheddingLevel

pub record CapacityThresholds (N : Type 0) : Type 0 where
  pub cpu_percent : N
  pub memory_percent : N
  pub request_rate_per_sec : N
  pub p99_latency_ms : N

-- A snapshot has the same four metrics; its timestamp is not read.
abbrev pub MetricSnapshot : Type 0 → Type 0
MetricSnapshot N = CapacityThresholds N

pub record Thresholds (N : Type 0) : Type 0 where
  pub light : CapacityThresholds N
  pub medium : CapacityThresholds N
  pub critical : CapacityThresholds N

module _ {N : Type 0} (geb : N → N → Bool) where
  unfoldable pub reaches : MetricSnapshot N → CapacityThresholds N → Bool
  reaches m t =
      geb m.cpu_percent t.cpu_percent
      || geb m.memory_percent t.memory_percent
      || geb m.request_rate_per_sec t.request_rate_per_sec
      || geb m.p99_latency_ms t.p99_latency_ms

  unfoldable pub determine_level : Thresholds N → MetricSnapshot N → SheddingLevel
  determine_level t m =
      if reaches m t.critical
      then critical
      else if reaches m t.medium
      then medium
      else if reaches m t.light
      then light
      else calm

-- The place of a level in `levels` of `degradeOnLevel`.
abbrev pub index_of : SheddingLevel → ℕ
index_of calm = 0
index_of light = 1
index_of medium = 2
index_of critical = 3

module _ {N : Type 0} (geb : N → N → Bool)
    (trans : (a b c : N) → geb a b ≡ true → geb b c ≡ true → geb a c ≡ true) where
  abbrev pub Worse : MetricSnapshot N → MetricSnapshot N → Type 0
  Worse m' m =
      (geb m'.cpu_percent m.cpu_percent ≡ true)
      × (geb m'.memory_percent m.memory_percent ≡ true)
      × (geb m'.request_rate_per_sec m.request_rate_per_sec ≡ true)
      × (geb m'.p99_latency_ms m.p99_latency_ms ≡ true)

  reaches_mono :
      (m' m : MetricSnapshot N) (t : CapacityThresholds N)
      → Worse m' m
      → reaches geb m t ≡ true
      → reaches geb m' t ≡ true
  unfolding reaches
  reaches_mono m' m t (c, me, r, p) h = ground (
    arith,
    trans _ _ t.cpu_percent c,
    trans _ _ t.memory_percent me,
    trans _ _ t.request_rate_per_sec r,
    trans _ _ t.p99_latency_ms p,
  )

  -- Worse metrics never lower the level, whatever the thresholds are.
  pub determine_level_mono :
      (t : Thresholds N) (m' m : MetricSnapshot N)
      → Worse m' m
      → index_of (determine_level geb t m) ≤ index_of (determine_level geb t m')
  unfolding determine_level
  determine_level_mono t m' m w = ground (
    arith,
    reaches_mono m' m t.critical w,
    reaches_mono m' m t.medium w,
    reaches_mono m' m t.light w,
  )
