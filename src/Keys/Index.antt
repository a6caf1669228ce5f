-- ===== src/Keys/Index.antt =====
-- An index from validators to keys that agrees with the key records, and how both change together.
-- The two tables are functions here, so that the order of their entries does not matter.
use mathlib.Core.Path.{fun_ext}
use veri_node_backend.Prelude.{
  none-some, String, str_eq, eq_iff, eq_refl, ◌≡◌, refl, sym, ap, ◌∙◌, ◌⊎◌, inl, inr, Bool, true,
  false, Option, none, some, arith, if◌then◌else◌,
}
use veri_node_backend.Dict.{Dict, get, set, remove, get-set, get-remove, key_cases}
use veri_node_backend.Keys.Registry.{KeyRecord}

abbrev pub put {ℓ} : {A : Type ℓ} → (String → Option A) → String → Option A → String → Option A
put f k v j = if str_eq k j then v else f j

pub set-put {ℓ} :
    {A : Type ℓ} (d : Dict A) (k : String) (v : A) → get (set d k v) ≡ put (get d) k (some v)
set-put d k v = fun_ext (λ j. get-set d k v j)

pub remove-put {ℓ} : {A : Type ℓ} (d : Dict A) (k : String) → get (remove d k) ≡ put (get d) k none
remove-put d k = fun_ext (λ j. get-remove d k j)

pub put_twice {ℓ} :
    {A : Type ℓ} (f : String → Option A) (k : String) (u v : Option A)
    → put (put f k u) k v ≡ put f k v
put_twice f k u v = fun_ext (λ j. ground arith)

pub put_here {ℓ} :
    {A : Type ℓ} (f : String → Option A) (k : String) (v : Option A) → put f k v k ≡ v
put_here f k v = rw eq_refl refl

module _ (T : KeyRecord → Bool) where
  abbrev pub holds_at : Option KeyRecord → Bool
  holds_at none = false
  holds_at (some k) = T k

  -- `I` names, for each validator, the one record of its that passes the test.
  pub record Indexes (K : String → Option KeyRecord) (I : String → Option String) : Type 0 where
    pub points :
        (v key : String)
        → I v ≡ some key
        → (k : KeyRecord) × (K key ≡ some k) × (k.validator_id ≡ v) × (T k ≡ true)
    pub pointed :
        (key : String) (k : KeyRecord) → K key ≡ some k → T k ≡ true → I k.validator_id ≡ some key

  same_record : {k l : KeyRecord} → some k ≡ some l → k ≡ l
  same_record e = cc

  same_key : {a b : String} → some a ≡ some b → a ≡ b
  same_key e = cc

  clash : true ≡ false → ⊥
  clash e = cc

  apart : (a b : String) → str_eq a b ≡ false → a ≡ b → ⊥
  apart a b n e = clash (sym ((eq_iff a b).1 e) ∙ n)

  module _ (K : String → Option KeyRecord) (I : String → Option String) (h : Indexes K I) where
    -- A record that does not pass the test before or after may change.
    pub Indexes-quiet :
        (key : String) (o : Option KeyRecord)
        → holds_at (K key) ≡ false
        → holds_at o ≡ false
        → Indexes (put K key o) I
    Indexes-quiet key o old new = record {
      points = λ v j e. elim (key_cases key j) [
        | inr n ↦ rw n (h.points v j e)
        | inl p ↦
            let (k, found, own, t) = h.points v j e in
            absurd (clash (sym t ∙ ap (holds_at) (sym found ∙ ap K (sym p)) ∙ old))
      ];
      pointed = λ j k e t. elim (key_cases key j) [
        | inr n ↦ h.pointed j k (rw n at e) t
        | inl p ↦ absurd (
            clash (sym t ∙ ap holds_at (sym e ∙ ap (put K key o) (sym p) ∙ put_here K key o) ∙ new))
      ];
    }

    -- The record under `key` and the entry of its validator change together.
    pub Indexes-change :
        (key v : String) (o : Option KeyRecord) (i : Option String)
        → (I v ≡ none) ⊎ (I v ≡ some key)
        → ((k : KeyRecord) → K key ≡ some k → T k ≡ true → k.validator_id ≡ v)
        → ((k : KeyRecord) → o ≡ some k → T k ≡ true → (k.validator_id ≡ v) × (i ≡ some key))
        → ((j : String)
            → i ≡ some j
            → (j ≡ key) × ((k : KeyRecord) × (o ≡ some k) × (k.validator_id ≡ v) × (T k ≡ true)))
        → Indexes (put K key o) (put I v i)
    Indexes-change key v o i slot old new target = record {
      points = λ w j e. elim (key_cases v w) [
        | inl p ↦
            let (q, (k, new_k, own, t)) = target j (sym (put_here I v i) ∙ ap (put I v i) p ∙ e) in
            (k, ap (put K key o) q ∙ put_here K key o ∙ new_k, own ∙ p, t)
        | inr n ↦
            let (k, found, own, t) = h.points w j (rw n at e) in
            elim (key_cases key j) [
              | inr m ↦ (k, rw m found, own, t)
              | inl p ↦ absurd (apart v w n (sym (old k (ap K p ∙ found) t) ∙ own))
            ]
      ];
      pointed = λ j k e t. elim (key_cases key j) [
        | inl p ↦
            let (own, there) = new k (sym (put_here K key o) ∙ ap (put K key o) p ∙ e) t in
            ap (put I v i) own ∙ put_here I v i ∙ there ∙ ap some p
        | inr n ↦
            let there = h.pointed j k (rw n at e) t in
            elim (key_cases v k.validator_id) [
              | inr m ↦ rw m there
              | inl p ↦ absurd (elim slot [
                | inl q ↦ none-some (sym q ∙ ap I p ∙ there)
                | inr q ↦ apart key j n (same_key (sym q ∙ ap I p ∙ there))
              ])
            ]
      ];
    }
