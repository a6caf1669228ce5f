-- ===== src/Slashing/Window.antt =====
-- `NonceWindow` of src/staking/slashing_sequencer.ts. A slot is `none` where the source has null.
use veri_node_backend.Prelude.{
  ==_iff, ap, ◌∙◌, sym, All, subst, ℕ, zero, suc, ◌+◌, ◌%◌, ◌<◌, ◌≡◌, refl, ◌⊎◌, inl, inr, Bool,
  true, false, Option, none, some, List, [], ◌∷◌, arith, if◌then◌else◌, ◌==◌, Bool-cases,
}
use native.Mathlib.Nat.{mod-eq_of_lt}

pub record NonceWindow : Type 0 where
  pub slots : List (Option ℕ)
  pub head : ℕ
  pub size : ℕ

unfoldable pub nulls : ℕ → List (Option ℕ)
nulls zero = []
nulls (suc n) = none ∷ nulls n

unfoldable pub new_window : ℕ → NonceWindow
unfolding nulls
new_window size = record { slots = nulls size; head = 0; size = size }

-- An index out of range gives `undefined`, which is not null.
unfoldable pub slot_at : List (Option ℕ) → ℕ → Option (Option ℕ)
slot_at [] i = none
slot_at (x ∷ xs) zero = some x
slot_at (x ∷ xs) (suc i) = slot_at xs i

unfoldable pub set_slot : List (Option ℕ) → ℕ → Option ℕ → List (Option ℕ)
set_slot [] i v = []
set_slot (x ∷ xs) zero v = v ∷ xs
set_slot (x ∷ xs) (suc i) v = x ∷ set_slot xs i v

abbrev pub is_null : Option (Option ℕ) → Bool
is_null (some none) = true
is_null _ = false

abbrev pub holds_nonce : ℕ → Option (Option ℕ) → Bool
holds_nonce nonce (some (some n)) = n == nonce
holds_nonce nonce _ = false

-- The loop of `claim` with `left` turns to go, the next of which is number `i`.
unfoldable pub claim_loop : ℕ → ℕ → NonceWindow → Option ℕ × NonceWindow
claim_loop zero i w = (none, w)
claim_loop (suc left) i w =
    let rest = claim_loop left (suc i) w in
    let index = (w.head + i) % w.size in
    if is_null (slot_at w.slots index)
    then (
      some index,
      record w { slots = set_slot w.slots index (some index); head = (index + 1) % w.size },
    )
    else rest

unfoldable pub claim : NonceWindow → Option ℕ × NonceWindow
unfolding claim_loop
claim w = claim_loop w.size 0 w

unfoldable pub release : ℕ → NonceWindow → NonceWindow
release nonce w =
    let index = nonce % w.size in
    if holds_nonce nonce (slot_at w.slots index)
    then record w { slots = set_slot w.slots index none }
    else w

is_null-eq : (o : Option (Option ℕ)) → is_null o ≡ true → o ≡ some none
is_null-eq none h = cc
is_null-eq (some none) h = refl
is_null-eq (some (some n)) h = cc

set_elsewhere :
    (l : List (Option ℕ)) (i j : ℕ) (v u : Option ℕ)
    → slot_at l i ≡ some u
    → slot_at (set_slot l i v) j ≡ (if i == j then some v else slot_at l j)
unfolding slot_at set_slot
set_elsewhere [] i j v u h = cc
set_elsewhere (x ∷ xs) zero zero v u h = ground arith
set_elsewhere (x ∷ xs) zero (suc j) v u h = ground arith
set_elsewhere (x ∷ xs) (suc i) zero v u h = ground arith
set_elsewhere (x ∷ xs) (suc i) (suc j) v u h = ground (arith, set_elsewhere xs i j v u h)

-- A slot was null and now has its index; every other slot is as it was.
abbrev pub Claims : NonceWindow → ℕ → NonceWindow → Type 0
Claims w n w' =
    (slot_at w.slots n ≡ some none)
    × ((j : ℕ) → slot_at w'.slots j ≡ (if n == j then some (some n) else slot_at w.slots j))

-- The numbers of the turns of the loop.
abbrev pub turns : ℕ → ℕ → List ℕ
turns zero i = []
turns (suc left) i = i ∷ turns left (suc i)

-- The loop found a null slot, or visited none.
abbrev pub Claimed : ℕ → ℕ → NonceWindow → Option ℕ × NonceWindow → Type 0
Claimed left i w r =
    ((n : ℕ) × (r.0 ≡ some n) × Claims w n r.1)
    ⊎ ((r ≡ (none, w))
        × All (λ k. is_null (slot_at w.slots ((w.head + k) % w.size)) ≡ false) (turns left i))

claim_loop-Claimed : (left i : ℕ) (w : NonceWindow) → Claimed left i w (claim_loop left i w)
unfolding claim_loop
claim_loop-Claimed zero i w = inr (refl, tt)
claim_loop-Claimed (suc left) i w =
    elim (Bool-cases (is_null (slot_at w.slots ((w.head + i) % w.size)))) [
      | inl e ↦
          let free = is_null-eq _ e in
          inl (
            (w.head + i) % w.size,
            rw e refl,
            (free, λ j. rw e (set_elsewhere w.slots _ j _ none free)),
          )
      | inr e ↦ rw e (elim (claim_loop-Claimed left (suc i) w) [
        | inl found ↦ inl found
        | inr (q, taken) ↦ inr (q, (refl, taken))
      ])
    ]

-- `claim` gives a nonce whose slot was null and now holds it, and touches no other slot; or it gives
-- none and changes nothing, and no slot on the whole way round from the head is null.
pub claim-Claimed : (w : NonceWindow) → Claimed w.size 0 w (claim w)
unfolding claim
claim-Claimed w = claim_loop-Claimed w.size 0 w

same_nonce : (m n : ℕ) → some m ≡ some n → m ≡ n
same_nonce m n e = cc

no_nonce : (n : ℕ) → none ≡ some n → ⊥
no_nonce n e = cc

claim_loop-size : (left i : ℕ) (w : NonceWindow) → (claim_loop left i w).1.size ≡ w.size
unfolding claim_loop
claim_loop-size zero i w = refl
claim_loop-size (suc left) i w =
    elim (Bool-cases (is_null (slot_at w.slots ((w.head + i) % w.size)))) [
      | inl e ↦ rw e refl
      | inr e ↦ rw e (claim_loop-size left (suc i) w)
    ]

release_undoes :
    (w w' : NonceWindow) (n j : ℕ)
    → n < w.size
    → w'.size ≡ w.size
    → Claims w n w'
    → slot_at (release n w').slots j ≡ slot_at w.slots j
unfolding release
release_undoes w w' n j h e (free, after) =
    let here : n % w'.size ≡ n = mod-eq_of_lt (rw e h) in
    let mine : slot_at w'.slots n ≡ some (some n) = after n ∙ ground arith in
    simp (here, mine)
      (simp (self n) (
        set_elsewhere w'.slots n j none (some n) mine
        ∙ (rw (after j) (elim (Bool-cases (n == j)) [
          | inl q ↦ rw q (sym free ∙ ap (slot_at w.slots) ((==_iff n j).0 q))
          | inr q ↦ rw q refl
        ]))))
  where
    self : (n : ℕ) → (n == n) ≡ true
    self n = ground arith

-- What `claim` gave, `release` takes back: every slot is again as it was before.
pub release-claim :
    (w : NonceWindow) (n : ℕ)
    → n < w.size
    → (claim w).0 ≡ some n
    → (j : ℕ) → slot_at (release n (claim w).1).slots j ≡ slot_at w.slots j
unfolding claim
release-claim w n h e j = elim (claim-Claimed w) [
  | inl (m, q, c) ↦
      release_undoes w (claim w).1 n j h (claim_loop-size w.size 0 w)
        (subst (λ k. Claims w k (claim w).1) (same_nonce m n (sym q ∙ e)) c)
  | inr (q, _) ↦ absurd (no_nonce n (rw q at e))
]
