-- ===== src/Dict.antt =====
-- JavaScript's `Map` with string keys, and a table with a primary key: `set` replaces in place or
-- appends, `remove` drops the key, `entries` lists them in insertion order.
use veri_node_backend.Prelude.{
  All, keep, String, str_eq, eq_iff, ◌≡◌, refl, ◌⊎◌, inl, inr, Option, none, some, List, [], ◌∷◌,
  arith, if◌then◌else◌, Bool, true, false, Bool-cases, subst, sym, eq_refl,
}

abbrev pub Dict {ℓ} : Type ℓ → Type ℓ
Dict V = List (String × V)

module _ {ℓ} {V : Type ℓ} where
  unfoldable pub get : Dict V → String → Option V
  get [] k = none
  get ((j, v) ∷ d) k = if str_eq j k then some v else get d k

  unfoldable pub set : Dict V → String → V → Dict V
  set [] k v = (k, v) ∷ []
  set ((j, w) ∷ d) k v = if str_eq j k then (k, v) ∷ d else (j, w) ∷ set d k v

  unfoldable pub remove : Dict V → String → Dict V
  remove [] k = []
  remove ((j, w) ∷ d) k = if str_eq j k then remove d k else (j, w) ∷ remove d k

  pub get-set :
      (d : Dict V) (k : String) (v : V) (j : String)
      → get (set d k v) j ≡ (if str_eq k j then some v else get d j)
  unfolding get set
  get-set [] k v j = refl
  get-set ((i, w) ∷ d) k v j = ground (arith, eq_iff k j, eq_iff i k, eq_iff i j, get-set d k v j)

  pub get-remove :
      (d : Dict V) (k j : String) → get (remove d k) j ≡ (if str_eq k j then none else get d j)
  unfolding get remove
  get-remove [] k j = ground arith
  get-remove ((i, w) ∷ d) k j = ground (arith, eq_iff k j, eq_iff i k, eq_iff i j, get-remove d k j)

pub get-empty {ℓ} : {V : Type ℓ} (k : String) → get {V = V} [] k ≡ none
unfolding get
get-empty k = refl

-- A split on a comparison of keys.
pub key_cases : (k j : String) → (k ≡ j) ⊎ (str_eq k j ≡ false)
key_cases k j = elim (Bool-cases (str_eq k j)) [ inl e ↦ inl ((eq_iff k j).0 e) | inr e ↦ inr e ]

-- To prove a statement about key `j` after a change at key `k`.
pub split_key {ℓ} :
    (P : Bool → String → Type ℓ) (k j : String)
    → P true k
    → (str_eq k j ≡ false → P false j)
    → P (str_eq k j) j
split_key P k j same other = elim (key_cases k j) [
  | inl p ↦ subst (λ i. P (str_eq k i) i) p (subst (λ b. P b k) (sym (eq_refl k)) same)
  | inr e ↦ subst (λ b. P b j) (sym e) (other e)
]

pub ruleset dict_laws = (get-empty, get-set, get-remove)

-- No two entries share a key. `set` and `remove` keep it so.
abbrev pub Absent {ℓ} : {V : Type ℓ} → String → Dict V → Type 0
Absent k [] = Unit
Absent k ((j, v) ∷ d) = (str_eq j k ≡ false) × Absent k d

abbrev pub Distinct {ℓ} : {V : Type ℓ} → Dict V → Type 0
Distinct [] = Unit
Distinct ((j, v) ∷ d) = Absent j d × Distinct d

module _ {ℓ} {V : Type ℓ} where
  -- In a table with a primary key an entry is what a lookup of its key finds.
  pub Distinct-get : (d : Dict V) → Distinct d → All (λ x. get d x.0 ≡ some x.1) d
  unfolding get
  Distinct-get [] h = tt
  Distinct-get ((k, v) ∷ d) (fresh, h) = (rw (eq_refl k), weaken d fresh (Distinct-get d h))
    where
      weaken :
          (e : Dict V)
          → Absent k e
          → All (λ x. get d x.0 ≡ some x.1) e
          → All (λ x. get ((k, v) ∷ d) x.0 ≡ some x.1) e
      weaken [] a h = tt
      weaken ((j, w) ∷ e) (n, a) (p, h) = (ground (arith, eq_iff j k, eq_iff k j), weaken e a h)

  Absent-set :
      (d : Dict V) (k i : String) (v : V) → str_eq k i ≡ false → Absent i d → Absent i (set d k v)
  unfolding set
  Absent-set [] k i v n a = (n, tt)
  Absent-set ((j, w) ∷ d) k i v n (p, a) = elim (Bool-cases (str_eq j k)) [
    | inl e ↦ rw e (n, a)
    | inr e ↦ rw e (p, Absent-set d k i v n a)
  ]

  pub Distinct-set : (d : Dict V) (k : String) (v : V) → Distinct d → Distinct (set d k v)
  unfolding set
  Distinct-set [] k v h = (tt, tt)
  Distinct-set ((j, w) ∷ d) k v (a, h) = elim (Bool-cases (str_eq j k)) [
    | inl e ↦ rw e (subst (λ i. Absent i d) ((eq_iff j k).0 e) a, h)
    | inr e ↦
        rw e (Absent-set d k j v (ground (arith, eq_iff j k, eq_iff k j)) a, Distinct-set d k v h)
  ]

  Absent-remove : (d : Dict V) (k i : String) → Absent i d → Absent i (remove d k)
  unfolding remove
  Absent-remove [] k i a = tt
  Absent-remove ((j, w) ∷ d) k i (p, a) = elim (Bool-cases (str_eq j k)) [
    | inl e ↦ rw e (Absent-remove d k i a)
    | inr e ↦ rw e (p, Absent-remove d k i a)
  ]

  pub Distinct-remove : (d : Dict V) (k : String) → Distinct d → Distinct (remove d k)
  unfolding remove
  Distinct-remove [] k h = tt
  Distinct-remove ((j, w) ∷ d) k (a, h) = elim (Bool-cases (str_eq j k)) [
    | inl e ↦ rw e (Distinct-remove d k h)
    | inr e ↦ rw e (Absent-remove d k j a, Distinct-remove d k h)
  ]

  pub All-set {κ} :
      (P : String × V → Type κ) (d : Dict V) (k : String) (v : V)
      → All P d
      → P (k, v)
      → All P (set d k v)
  unfolding set
  All-set P [] k v h p = (p, tt)
  All-set P ((j, w) ∷ d) k v (q, h) p = elim (Bool-cases (str_eq j k)) [
    | inl e ↦ rw e (p, h)
    | inr e ↦ rw e (q, All-set P d k v h p)
  ]

  pub All-remove {κ} :
      (P : String × V → Type κ) (d : Dict V) (k : String) → All P d → All P (remove d k)
  unfolding remove
  All-remove P [] k h = tt
  All-remove P ((j, w) ∷ d) k (q, h) = elim (Bool-cases (str_eq j k)) [
    | inl e ↦ rw e (All-remove P d k h)
    | inr e ↦ rw e (q, All-remove P d k h)
  ]

  pub All-get {κ} :
      (P : String × V → Type κ) (d : Dict V) (k : String) (v : V)
      → All P d
      → get d k ≡ some v
      → P (k, v)
  unfolding get
  All-get P [] k v h e = absurd (none_ne_some v e)
    where
      none_ne_some : (v : V) → none ≡ some v → ⊥
      none_ne_some v e = cc
  All-get P ((j, w) ∷ d) k v (q, h) e = elim (Bool-cases (str_eq j k)) [
    | inr n ↦ All-get P d k v h (rw n at e)
    | inl m ↦ subst P (same_entry ((eq_iff j k).0 m) (rw m at e)) q
  ]
    where
      same_entry :
          {w' : V} → j ≡ k → some w' ≡ some v → (let x : String × V = (j, w') in x) ≡ (k, v)
      same_entry p q = cc

  Absent-keep : (p : String × V → Bool) (d : Dict V) (k : String) → Absent k d → Absent k (keep p d)
  Absent-keep p [] k a = tt
  Absent-keep p ((j, w) ∷ d) k (n, a) = elim (Bool-cases (p (j, w))) [
    | inl e ↦ rw e (n, Absent-keep p d k a)
    | inr e ↦ rw e (Absent-keep p d k a)
  ]

  pub Distinct-keep : (p : String × V → Bool) (d : Dict V) → Distinct d → Distinct (keep p d)
  Distinct-keep p [] h = tt
  Distinct-keep p ((j, w) ∷ d) (a, h) = elim (Bool-cases (p (j, w))) [
    | inl e ↦ rw e (Absent-keep p d j a, Distinct-keep p d h)
    | inr e ↦ rw e (Distinct-keep p d h)
  ]

  -- What holds of every entry with another key holds of all entries where the key is absent.
  pub All-Absent {κ} :
      (P : String × V → Type κ) (k : String) (d : Dict V)
      → Absent k d
      → ((x : String × V) → str_eq x.0 k ≡ false → P x)
      → All P d
  All-Absent P k [] a f = tt
  All-Absent P k ((j, w) ∷ d) (n, a) f = (f (j, w) n, All-Absent P k d a f)

  -- In a table with a primary key, an entry that is set is the only one of its key.
  pub All-set_only {κ} :
      (P : String × V → Type κ) (d : Dict V) (k : String) (v : V)
      → Distinct d
      → P (k, v)
      → ((x : String × V) → str_eq x.0 k ≡ false → P x)
      → All P (set d k v)
  unfolding set
  All-set_only P [] k v h p f = (p, tt)
  All-set_only P ((j, w) ∷ d) k v (a, h) p f = elim (Bool-cases (str_eq j k)) [
    | inl e ↦ rw e (p, All-Absent P k d (subst (λ i. Absent i d) ((eq_iff j k).0 e) a) f)
    | inr e ↦ rw e (f (j, w) e, All-set_only P d k v h p f)
  ]
