-- ===== src/Bond/Sums.antt =====
-- How the sum of a pool's stakes follows a change of one stake.
use veri_node_backend.Prelude.{
  String, str_eq, eq_iff, ◌≡◌, refl, inl, inr, Option, none, some, [], ◌∷◌, arith, if◌then◌else◌,
  Bool-cases, subst, ap, All,
}
use veri_node_backend.Prelude.Int.{ℤ, pos, ◌+ℤ◌, ◌≤ℤ◌, int_laws, pos_part, neg_part}
use veri_node_backend.Dict.{Dict, get, set, remove, Absent, Distinct}
use veri_node_backend.Bond.Defs.{ValidatorStake}
use veri_node_backend.Bond.Memory.{sum_of}

-- What an entry adds to the sum of a pool.
abbrev pub share : String → Option ValidatorStake → ℤ
share pool none = pos 0
share pool (some e) = if str_eq e.pool_id pool then e.amount else pos 0

sum_of-cons :
    (pool k : String) (e : ValidatorStake) (d : Dict ValidatorStake)
    → sum_of pool ((k, e) ∷ d) ≡ share pool (some e) +ℤ sum_of pool d
unfolding sum_of
sum_of-cons pool k e d = elim (Bool-cases (str_eq e.pool_id pool)) [
  | inl h ↦ rw h
  | inr h ↦ rw h (omega int_laws)
]

swap_ends : (x s y : ℤ) → x +ℤ s +ℤ y ≡ y +ℤ s +ℤ x
swap_ends x s y = omega int_laws

add_both : (w a g b v : ℤ) → a +ℤ g ≡ b +ℤ v → w +ℤ a +ℤ g ≡ w +ℤ b +ℤ v
add_both w a g b v e = omega (int_laws, ap pos_part e, ap neg_part e)

add_left : (w a g b : ℤ) → a +ℤ g ≡ b → w +ℤ a +ℤ g ≡ w +ℤ b
add_left w a g b e = omega (int_laws, ap pos_part e, ap neg_part e)

nothing_more : (x y : ℤ) → x +ℤ y +ℤ pos 0 ≡ y +ℤ x
nothing_more x y = omega int_laws

swap_two : (x y : ℤ) → x +ℤ y ≡ y +ℤ x
swap_two x y = omega int_laws

pub sum_of-set :
    (pool : String) (d : Dict ValidatorStake) (k : String) (v : ValidatorStake)
    → sum_of pool (set d k v) +ℤ share pool (get d k) ≡ sum_of pool d +ℤ share pool (some v)
unfolding set get
sum_of-set pool [] k v =
    rw (sum_of-cons pool k v []) (nothing_more (share pool (some v)) (sum_of pool []))
sum_of-set pool ((j, w) ∷ d) k v = elim (Bool-cases (str_eq j k)) [
  | inl h ↦ rw h (
      rw (sum_of-cons pool k v d, sum_of-cons pool j w d)
        (swap_ends (share pool (some v)) (sum_of pool d) (share pool (some w))))
  | inr h ↦ rw h (
      rw (sum_of-cons pool j w (set d k v), sum_of-cons pool j w d)
        (add_both (share pool (some w)) _ _ _ (share pool (some v)) (sum_of-set pool d k v)))
]

get-Absent : (d : Dict ValidatorStake) (k : String) → Absent k d → get d k ≡ none
unfolding get
get-Absent [] k a = refl
get-Absent ((j, w) ∷ d) k (n, a) = rw (n, get-Absent d k a)

remove-Absent : (d : Dict ValidatorStake) (k : String) → Absent k d → remove d k ≡ d
unfolding remove
remove-Absent [] k a = refl
remove-Absent ((j, w) ∷ d) k (n, a) = rw (n, remove-Absent d k a)

pub sum_of-remove :
    (pool : String) (d : Dict ValidatorStake) (k : String)
    → Distinct d
    → sum_of pool (remove d k) +ℤ share pool (get d k) ≡ sum_of pool d
unfolding remove get
sum_of-remove pool [] k h = omega int_laws
sum_of-remove pool ((j, w) ∷ d) k (a, h) = elim (Bool-cases (str_eq j k)) [
  | inl e ↦ rw e (
      rw (remove-Absent d k (subst (λ i. Absent i d) ((eq_iff j k).0 e) a), sum_of-cons pool j w d)
        (swap_two (sum_of pool d) (share pool (some w))))
  | inr e ↦ rw e (
      rw (sum_of-cons pool j w (remove d k), sum_of-cons pool j w d)
        (add_left (share pool (some w)) _ _ _ (sum_of-remove pool d k h)))
]

abbrev pub IsNonneg : ℤ → Type 0
IsNonneg x = pos 0 ≤ℤ x

share-IsNonneg :
    (pool : String) (e : ValidatorStake) → IsNonneg e.amount → IsNonneg (share pool (some e))
share-IsNonneg pool e h = ground arith

add-IsNonneg : (a b : ℤ) → IsNonneg a → IsNonneg b → IsNonneg (a +ℤ b)
add-IsNonneg a b h k = omega int_laws

le_add_right : (a b : ℤ) → IsNonneg b → a ≤ℤ a +ℤ b
le_add_right a b h = omega int_laws

le_add_left : (a g b : ℤ) → IsNonneg a → g ≤ℤ b → g ≤ℤ a +ℤ b
le_add_left a g b h k = omega int_laws

pub sum_of-IsNonneg :
    (pool : String) (d : Dict ValidatorStake)
    → All (λ x. IsNonneg x.1.amount) d
    → IsNonneg (sum_of pool d)
sum_of-IsNonneg pool [] h = unfold sum_of in omega arith
sum_of-IsNonneg pool ((j, w) ∷ d) (p, h) = rw (sum_of-cons pool j w d) (
    add-IsNonneg (share pool (some w)) (sum_of pool d) (share-IsNonneg pool w p)
      (sum_of-IsNonneg pool d h))

-- With no negative stake, no stake is more than the sum of its pool.
pub share-le-sum_of :
    (pool : String) (d : Dict ValidatorStake) (k : String)
    → All (λ x. IsNonneg x.1.amount) d
    → share pool (get d k) ≤ℤ sum_of pool d
unfolding get
share-le-sum_of pool [] k h = unfold sum_of in omega arith
share-le-sum_of pool ((j, w) ∷ d) k (p, h) = elim (Bool-cases (str_eq j k)) [
  | inl e ↦ rw e (
      rw (sum_of-cons pool j w d)
        (le_add_right (share pool (some w)) (sum_of pool d) (sum_of-IsNonneg pool d h)))
  | inr e ↦ rw e (
      rw (sum_of-cons pool j w d) (
        le_add_left (share pool (some w)) _ (sum_of pool d) (share-IsNonneg pool w p)
          (share-le-sum_of pool d k h)))
]
