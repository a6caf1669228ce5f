-- ===== src/Flags/Enabled.antt =====
-- `isEnabled` of src/core/ingress/feature_flags.ts and `requireFlag` of
-- src/core/ingress/graceful_degradation.ts. `isEnabled` calls itself on the dependencies of a
-- degraded flag, so it runs on fuel: `none` is a stack that is used up.
use veri_node_backend.Prelude.{
  All-map, ℕ, zero, suc, ◌<◌, String, ◌≡◌, refl, sym, ◌∙◌, Bool, true, false, Option, none, some,
  List, [], ◌∷◌, arith, All,
}
use veri_node_backend.Dict.{get}
use veri_node_backend.Flags.Registry.{
  Status, enabled, disabled, degraded, Flag, Flags, Config, get_status,
}
use veri_node_backend.Flags.Effective.{effective, get_status-effective, SameFlags}

abbrev pub dependencies_of : Option Flag → List String
dependencies_of none = []
dependencies_of (some flag) = elim flag.dependencies [ none ↦ [] | some keys ↦ keys ]

-- What the loop does with the answer for one dependency.
abbrev pub and_then : Option Bool × Flags → (Flags → Option Bool × Flags) → Option Bool × Flags
and_then (none, s) rest = (none, s)
and_then (some false, s) rest = (some false, s)
and_then (some true, s) rest = rest s

unfoldable pub all_enabled :
    (String → Flags → Option Bool × Flags) → List String → Flags → Option Bool × Flags
all_enabled check [] s = (some true, s)
all_enabled check (dep ∷ deps) s = and_then (check dep s) (all_enabled check deps)

-- The tests on the status that was read.
abbrev pub by_status :
    Status → Flags → String → (String → Flags → Option Bool × Flags) → Option Bool × Flags
by_status enabled s key check = (some true, s)
by_status disabled s key check = (some false, s)
by_status degraded s key check = all_enabled check (dependencies_of (get s.registry key)) s

unfoldable pub is_enabled : Config → ℕ → String → Flags → Option Bool × Flags
is_enabled config zero key s = (none, s)
is_enabled config (suc fuel) key s =
    by_status (get_status config key s).0 (get_status config key s).1 key (is_enabled config fuel)

pub data Response : Type 0 where
  passed : Response
  rejected : ℕ → Response

-- `requireFlag` with an optional `statusCode`.
unfoldable pub require_flag : Config → ℕ → String → Option ℕ → Flags → Option Response × Flags
require_flag config fuel key code s =
    let (answer, t) = is_enabled config fuel key s in
    (
      elim answer [
        | none ↦ none
        | some true ↦ some passed
        | some false ↦ some (rejected (elim code [ none ↦ 503 | some c ↦ c ]))
      ],
      t,
    )

-- The answer, read off the effective statuses: enabled, or degraded with every dependency enabled.
mutual
  pub data Enables (config : Config) (s : Flags) : String → Type 0 where
    plainly : {key : String} → effective config s key ≡ enabled → Enables config s key
    with_deps :
        {key : String}
        → effective config s key ≡ degraded
        → EnablesAll config s (dependencies_of (get s.registry key))
        → Enables config s key

  pub data EnablesAll (config : Config) (s : Flags) : List String → Type 0 where
    nothing : EnablesAll config s []
    each :
        {key : String} {keys : List String}
        → Enables config s key
        → EnablesAll config s keys
        → EnablesAll config s (key ∷ keys)

abbrev Verdict : Bool → Type 0 → Type 0
Verdict true P = P
Verdict false P = P → ⊥

module _ (config : Config) (s : Flags) where
  -- An answer came, it is right, and no status was changed on the way.
  abbrev pub Answered : Type 0 → Option Bool × Flags → Type 0
  Answered P r = (b : Bool) × (t : Flags) × (r ≡ (some b, t)) × Verdict b P × SameFlags config s t

  same_trans : (t u : Flags) → SameFlags config s t → SameFlags config t u → SameFlags config s u
  same_trans t u (h, r, l, c) (h', r', l', c') = (λ k. h' k ∙ h k, r' ∙ r, l' ∙ l, c' ∙ c)

  not_each :
      {key : String} {keys : List String}
      → (Enables config s key → ⊥)
      → EnablesAll config s (key ∷ keys)
      → ⊥
  not_each n (each e _) = n e

  not_rest :
      {key : String} {keys : List String}
      → (EnablesAll config s keys → ⊥)
      → EnablesAll config s (key ∷ keys)
      → ⊥
  not_rest n (each _ e) = n e

  both :
      (b : Bool) (key : String) (keys : List String)
      → Enables config s key
      → Verdict b (EnablesAll config s keys)
      → Verdict b (EnablesAll config s (key ∷ keys))
  both true key keys e w = each e w
  both false key keys e w = not_rest w

  then-Answered :
      (key : String) (keys : List String) (r : Option Bool × Flags)
      (rest : Flags → Option Bool × Flags)
      → Answered (Enables config s key) r
      → ((u : Flags) → SameFlags config s u → Answered (EnablesAll config s keys) (rest u))
      → Answered (EnablesAll config s (key ∷ keys)) (and_then r rest)
  then-Answered key keys r rest (false, u, e, n, same) h = (false, u, rw e refl, not_each n, same)
  then-Answered key keys r rest (true, u, e, first, same) h =
      let (b, v, e', w, same') = h u same in (b, v, rw e e', both b key keys first w, same')

  All-Answered :
      (check : String → Flags → Option Bool × Flags) (keys : List String) (t : Flags)
      → All
          (λ k. (u : Flags) → SameFlags config s u → Answered (Enables config s k) (check k u))
          keys
      → SameFlags config s t
      → Answered (EnablesAll config s keys) (all_enabled check keys t)
  unfolding all_enabled
  All-Answered check [] t h same = (true, t, refl, nothing, same)
  All-Answered check (k ∷ ks) t (h, hs) same =
      then-Answered k ks (check k t) (all_enabled check ks) (h t same)
        (λ u same'. All-Answered check ks u hs same')

  not_disabled : {key : String} → effective config s key ≡ disabled → Enables config s key → ⊥
  not_disabled d (plainly e) = absurd cc
  not_disabled d (with_deps e _) = absurd cc

  not_deps :
      {key : String}
      → effective config s key ≡ degraded
      → (EnablesAll config s (dependencies_of (get s.registry key)) → ⊥)
      → Enables config s key
      → ⊥
  not_deps d n (plainly e) = absurd cc
  not_deps d n (with_deps e all) = n all

  deps_verdict :
      (b : Bool) (key : String)
      → effective config s key ≡ degraded
      → Verdict b (EnablesAll config s (dependencies_of (get s.registry key)))
      → Verdict b (Enables config s key)
  deps_verdict true key d w = with_deps d w
  deps_verdict false key d w = not_deps d w

  -- The tests on the status.
  status-Answered :
      (key : String) (u : Flags) (check : String → Flags → Option Bool × Flags) (status : Status)
      → status ≡ effective config s key
      → SameFlags config s u
      → All
          (λ k. (v : Flags) → SameFlags config s v → Answered (Enables config s k) (check k v))
          (dependencies_of (get s.registry key))
      → Answered (Enables config s key) (by_status status u key check)
  status-Answered key u check enabled e same h = (true, u, refl, plainly (sym e), same)
  status-Answered key u check disabled e same h = (false, u, refl, not_disabled (sym e), same)
  status-Answered key u check degraded e same h =
      let h' : All
          (λ k. (v : Flags) → SameFlags config s v → Answered (Enables config s k) (check k v))
          (dependencies_of (get u.registry key)) =
        rw same.1 h in
      let (b, v, q, w, same') =
        All-Answered check (dependencies_of (get u.registry key)) u h' same in
      (b, v, q, deps_verdict b key (sym e) (rw same.1 at w), same')

  module _ (rank : String → ℕ)
      (acyclic : (key : String)
        → All (λ dep. rank dep < rank key) (dependencies_of (get s.registry key))) where
    answered :
        (fuel : ℕ) (key : String) (t : Flags)
        → rank key < fuel
        → SameFlags config s t
        → Answered (Enables config s key) (is_enabled config fuel key t)
    unfolding is_enabled
    answered zero key t le same = absurd (omega arith)
    answered (suc fuel) key t le same =
        let (e, same') = get_status-effective config key t in
        status-Answered key _ (is_enabled config fuel) _ (e ∙ same.0 key)
          (same_trans t _ same same')
          (All-map (λ dep. rank dep < rank key) _
            (λ dep lower u same''. answered fuel dep u (omega (arith, lower, le)) same'')
            (dependencies_of (get s.registry key)) (acyclic key))

-- Where the registered dependencies have no cycle, more fuel than the flag's rank is enough:
-- `isEnabled` answers, true exactly if the flag is enabled, or degraded with every dependency
-- enabled in the same sense, and no flag's status changes by the reading.
pub is_enabled-answers :
    (config : Config) (s : Flags) (rank : String → ℕ) (fuel : ℕ) (key : String)
    → ((k : String) → All (λ dep. rank dep < rank k) (dependencies_of (get s.registry k)))
    → rank key < fuel
    → Answered config s (Enables config s key) (is_enabled config fuel key s)
is_enabled-answers config s rank fuel key acyclic le =
    answered config s rank acyclic fuel key s le ((λ k. refl), refl, refl, refl)

none_then :
    (r : Option Bool × Flags) (rest : Flags → Option Bool × Flags)
    → r.0 ≡ none
    → (and_then r rest).0 ≡ none
none_then (none, s) rest h = refl
none_then (some b, s) rest h = absurd cc

-- A degraded flag that names itself as its first dependency is never answered, however much stack
-- there is.
pub is_enabled-cycle :
    (config : Config) (s : Flags) (key : String) (keys : List String) (fuel : ℕ)
    → effective config s key ≡ degraded
    → dependencies_of (get s.registry key) ≡ key ∷ keys
    → (is_enabled config fuel key s).0 ≡ none
unfolding is_enabled all_enabled
is_enabled-cycle config s key keys zero d deps = refl
is_enabled-cycle config s key keys (suc fuel) d deps =
    let (e, (same, regs, _, _)) = get_status-effective config key s in
    let t = (get_status config key s).1 in
    let deps' : dependencies_of (get t.registry key) ≡ key ∷ keys = rw regs deps in
    let rest = is_enabled-cycle config t key keys fuel (same key ∙ d) deps' in
    rw (e ∙ d, by_status)
      (rw deps'
        (none_then (is_enabled config fuel key t) (all_enabled (is_enabled config fuel) keys) rest))
