-- ===== src/Shedder/Evaluate.antt =====
-- How the level moves.
use veri_node_backend.Prelude.{
  ◌⊎◌, ℕ, ◌+◌, ◌≤◌, ◌<◌, ◌≡◌, refl, sym, inl, inr, Bool, true, false, not, ◌&&◌, Option, none, some,
  List, [], ◌∷◌, arith, if◌then◌else◌, lt→ltb, Bool-cases, All,
}
use veri_node_backend.Flags.Registry.{Config}
use veri_node_backend.Shedder.Levels.{
  SheddingLevel, calm, light, medium, critical, MetricSnapshot, determine_level,
}
use veri_node_backend.Shedder.State.{
  Shedder, is_calm, same_level, in_cooldown, notify_change, change_level, evaluate_level, evaluate,
}

same_level-eq : (a b : SheddingLevel) → same_level a b ≡ true → a ≡ b
same_level-eq calm calm h = refl
same_level-eq calm light h = cc
same_level-eq calm medium h = cc
same_level-eq calm critical h = cc
same_level-eq light calm h = cc
same_level-eq light light h = refl
same_level-eq light medium h = cc
same_level-eq light critical h = cc
same_level-eq medium calm h = cc
same_level-eq medium light h = cc
same_level-eq medium medium h = refl
same_level-eq medium critical h = cc
same_level-eq critical calm h = cc
same_level-eq critical light h = cc
same_level-eq critical medium h = cc
same_level-eq critical critical h = refl

calm_elevated :
    (a b : SheddingLevel) → is_calm a ≡ true → same_level a b ≡ false → is_calm b ≡ false
calm_elevated calm calm h k = absurd cc
calm_elevated light calm h k = absurd cc
calm_elevated medium calm h k = absurd cc
calm_elevated critical calm h k = absurd cc
calm_elevated a light h k = refl
calm_elevated a medium h k = refl
calm_elevated a critical h k = refl

stay_or :
    (a b : SheddingLevel)
    → is_calm b ≡ false
    → is_calm (if is_calm a && true && true then b else a) ≡ false
stay_or calm b h = h
stay_or light b h = refl
stay_or medium b h = refl
stay_or critical b h = refl

either_way : (b : Bool) (x y : SheddingLevel) → y ≡ x → x ≡ (if b then x else y)
either_way true x y e = refl
either_way false x y e = sym e

module _ {N : Type 0} (geb : N → N → Bool) (c : Config) where
  -- The level after an evaluation that found the level `found`.
  abbrev pub next_level : ℕ → SheddingLevel → Shedder N → SheddingLevel
  next_level now found s =
      if is_calm found && not (is_calm s.current_level) && in_cooldown now s
      then s.current_level
      else found

  pub evaluate_level-next :
      (now : ℕ) (found : SheddingLevel) (s : Shedder N)
      → (evaluate_level c now found s).current_level ≡ next_level now found s
  unfolding evaluate_level change_level notify_change
  evaluate_level-next now found s = elim (Bool-cases (same_level found s.current_level)) [
    | inl e ↦ rw e (either_way _ _ found (same_level-eq found s.current_level e))
    | inr e ↦ elim (Bool-cases (is_calm found)) [
      | inl f ↦ elim (Bool-cases (in_cooldown now s)) [
        | inl g ↦ rw e (rw f (rw g (rw (calm_elevated found s.current_level f e) refl)))
        | inr g ↦ rw e (rw f (rw g (rw (calm_elevated found s.current_level f e) refl)))
      ]
      | inr f ↦ rw e (rw f refl)
    ]
  ]

  -- Evaluations one after the other, each with its time and with what the collector answered.
  unfoldable pub run : List (ℕ × Option (MetricSnapshot N)) → Shedder N → Shedder N
  run [] s = s
  run ((now, snapshot) ∷ ticks) s = run ticks (evaluate geb c now snapshot s)

module _ {N : Type 0} (geb : N → N → Bool) (c : Config) where
  -- The time that an evaluation leaves is no earlier than a time that its own and the old one are
  -- not earlier than.
  later_elevated :
      (now start : ℕ) (found : SheddingLevel) (s : Shedder N)
      → start ≤ now
      → start ≤ s.last_elevated_at
      → start ≤ (evaluate_level c now found s).last_elevated_at
  unfolding evaluate_level change_level notify_change
  later_elevated now start found s h k = ground (arith, h, k)

  same_config :
      (now : ℕ) (found : SheddingLevel) (s : Shedder N)
      → (evaluate_level c now found s).config ≡ s.config
  unfolding evaluate_level change_level notify_change
  same_config now found s = ground arith

  stays_elevated :
      (now start : ℕ) (found : SheddingLevel) (s : Shedder N)
      → now < start + s.config.cooldown_period
      → start ≤ s.last_elevated_at
      → is_calm s.current_level ≡ false
      → is_calm (evaluate_level c now found s).current_level ≡ false
  stays_elevated now start found s h k e = rw (evaluate_level-next geb c now found s) (
      rw (lt→ltb now (s.last_elevated_at + s.config.cooldown_period) (omega (arith, h, k)), e)
        (stay_or found s.current_level e))

  abbrev Evaluation : ℕ → Shedder N → Shedder N → Type 0
  Evaluation now s t = (t ≡ s) ⊎ ((found : SheddingLevel) × (t ≡ evaluate_level c now found s))

  evaluate_cases :
      (now : ℕ) (snapshot : Option (MetricSnapshot N)) (s : Shedder N)
      → Evaluation now s (evaluate geb c now snapshot s)
  unfolding evaluate
  evaluate_cases now none s = elim (Bool-cases s.has_collector) [
    | inl e ↦ inl (rw e refl)
    | inr e ↦ inl (rw e refl)
  ]
  evaluate_cases now (some m) s = elim (Bool-cases s.has_collector) [
    | inl e ↦ inr (determine_level geb s.config.thresholds m, rw e refl)
    | inr e ↦ inl (rw e refl)
  ]

  abbrev pub Elevated : ℕ → Shedder N → Shedder N → Type 0
  Elevated start s t =
      (is_calm t.current_level ≡ false) × (start ≤ t.last_elevated_at) × (t.config ≡ s.config)

  evaluate-Elevated :
      (now start : ℕ) (snapshot : Option (MetricSnapshot N)) (s : Shedder N)
      → start ≤ now
      → now < start + s.config.cooldown_period
      → start ≤ s.last_elevated_at
      → is_calm s.current_level ≡ false
      → Elevated start s (evaluate geb c now snapshot s)
  evaluate-Elevated now start snapshot s h k l e = elim (evaluate_cases now snapshot s) [
    | inl q ↦ rw q (e, l, refl)
    | inr (found, q) ↦ rw q (
      stays_elevated now start found s k l e,
      later_elevated now start found s h l,
      same_config now found s,
    )
  ]

  -- Once elevated, the level does not fall back to `none` at any evaluation, whatever the metrics
  -- and whatever other levels it takes, until the cooldown since `start`, a time no later than the
  -- last elevation, is over.
  pub run_elevated :
      (ticks : List (ℕ × Option (MetricSnapshot N))) (start : ℕ) (s : Shedder N)
      → All (λ t. (start ≤ t.0) × (t.0 < start + s.config.cooldown_period)) ticks
      → start ≤ s.last_elevated_at
      → is_calm s.current_level ≡ false
      → is_calm (run geb c ticks s).current_level ≡ false
  unfolding run
  run_elevated [] start s h k e = e
  run_elevated ((now, snapshot) ∷ ticks) start s ((a, b), h) k e =
      let (e', k', q) = evaluate-Elevated now start snapshot s a b k e in
      run_elevated ticks start (evaluate geb c now snapshot s) (rw q h) k' e'

  pub evaluate-found :
      (now : ℕ) (m : MetricSnapshot N) (s : Shedder N)
      → s.has_collector ≡ true
      → evaluate geb c now (some m) s
        ≡ evaluate_level c now (determine_level geb s.config.thresholds m) s
  unfolding evaluate
  evaluate-found now m s h = rw h refl

  -- With a collector that answers `m`, the level becomes the level of `m`; only a fall to `none`
  -- from an elevated level waits until the cooldown since the last elevation is over.
  pub evaluate-next_level :
      (now : ℕ) (m : MetricSnapshot N) (s : Shedder N)
      → s.has_collector ≡ true
      → (evaluate geb c now (some m) s).current_level
        ≡ next_level geb c now (determine_level geb s.config.thresholds m) s
  evaluate-next_level now m s h =
      rw (evaluate-found now m s h)
        (evaluate_level-next geb c now (determine_level geb s.config.thresholds m) s)
