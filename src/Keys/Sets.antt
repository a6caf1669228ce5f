-- ===== src/Keys/Sets.antt =====
-- JavaScript's `Set` of strings as the list of its members in insertion order, and `sort`.
use Prim.Native.Nat.{Ordering}
use veri_node_backend.Prelude.{
  length, String, str_eq, eq_iff, eq_refl, ◌+◌, ◌≡◌, refl, sym, ap, subst, ◌∙◌, Bool, true, false,
  ◌&&◌, ◌||◌, List, [], ◌∷◌, ◌++◌, arith, if◌then◌else◌, inl, inr, Bool-cases,
}

-- `set.has(x)`, `xs.includes(x)`
abbrev pub has : List String → String → Bool
has [] x = false
has (y ∷ ys) x = str_eq y x || has ys x

-- `set.add(x)`
abbrev pub add : List String → String → List String
add s x = if has s x then s else s ++ x ∷ []

abbrev pub add_all : List String → List String → List String
add_all s [] = s
add_all s (x ∷ xs) = add_all (add s x) xs

-- `[...new Set(xs)]`
abbrev pub distinct : List String → List String
distinct xs = add_all [] xs

-- `xs.every(x => s.includes(x))`
abbrev pub all_in : List String → List String → Bool
all_in s [] = true
all_in s (x ∷ xs) = has s x && all_in s xs

abbrev pub insert_sorted : String → List String → List String
insert_sorted x [] = x ∷ []
insert_sorted x (y ∷ ys) =
    let rest = insert_sorted x ys in
    elim (Prim.Native.String.compare y x) [ Ordering.lt ↦ y ∷ rest | _ ↦ x ∷ y ∷ ys ]

-- `xs.sort()`, by code points.
abbrev pub sort : List String → List String
sort [] = []
sort (x ∷ xs) = insert_sorted x (sort xs)

-- No member twice.
abbrev pub IsNodup : List String → Type 0
IsNodup [] = Unit
IsNodup (x ∷ xs) = (has xs x ≡ false) × IsNodup xs

has-append : (s t : List String) (x : String) → has (s ++ t) x ≡ (has s x || has t x)
has-append [] t x = refl
has-append (y ∷ s) t x = ground (arith, has-append s t x)

IsNodup-snoc : (s : List String) (x : String) → IsNodup s → has s x ≡ false → IsNodup (s ++ x ∷ [])
IsNodup-snoc [] x h n = (refl, tt)
IsNodup-snoc (y ∷ s) x (m, h) n = (
  ground (arith, has-append s (x ∷ []) y, eq_iff x y, eq_iff y x),
  IsNodup-snoc s x h (ground arith),
)

pub IsNodup-add : (s : List String) (x : String) → IsNodup s → IsNodup (add s x)
IsNodup-add s x h = elim (Bool-cases (has s x)) [
  | inl e ↦ rw e h
  | inr e ↦ rw e (IsNodup-snoc s x h e)
]

IsNodup-add_all : (s xs : List String) → IsNodup s → IsNodup (add_all s xs)
IsNodup-add_all s [] h = h
IsNodup-add_all s (x ∷ xs) h = IsNodup-add_all (add s x) xs (IsNodup-add s x h)

pub IsNodup-distinct : (xs : List String) → IsNodup (distinct xs)
IsNodup-distinct xs = IsNodup-add_all [] xs tt

not_in_front :
    (s : List String) (x : String) (xs : List String) → IsNodup (s ++ x ∷ xs) → has s x ≡ false
not_in_front [] x xs h = refl
not_in_front (y ∷ s) x xs (n, h) =
    ground
      (arith, not_in_front s x xs h, has-append s (x ∷ xs) y, eq_iff x y, eq_iff y x, eq_refl x)

append_cons : (s : List String) (x : String) (xs : List String) → (s ++ x ∷ []) ++ xs ≡ s ++ x ∷ xs
append_cons [] x xs = refl
append_cons (y ∷ s) x xs = ap (λ t. y ∷ t) (append_cons s x xs)

add_all-fresh : (s xs : List String) → IsNodup (s ++ xs) → add_all s xs ≡ s ++ xs
add_all-fresh [] [] h = refl
add_all-fresh (y ∷ s) [] (n, h) = ap (λ t. y ∷ t) (add_all-fresh s [] h)
add_all-fresh s (x ∷ xs) h = rw (not_in_front s x xs h) (
    add_all-fresh (s ++ x ∷ []) xs (subst IsNodup (sym (append_cons s x xs)) h)
    ∙ append_cons s x xs)

-- A list without repetitions is what a set keeps of it.
pub distinct_of_IsNodup : (xs : List String) → IsNodup xs → distinct xs ≡ xs
distinct_of_IsNodup xs h = add_all-fresh [] xs h

has-insert_sorted :
    (x : String) (ys : List String) (v : String)
    → has (insert_sorted x ys) v ≡ (str_eq x v || has ys v)
has-insert_sorted x [] v = refl
has-insert_sorted x (y ∷ ys) v = ground (arith, has-insert_sorted x ys v)

has-sort : (xs : List String) (v : String) → has (sort xs) v ≡ has xs v
has-sort [] v = refl
has-sort (x ∷ xs) v = has-insert_sorted x (sort xs) v ∙ ap (λ b. str_eq x v || b) (has-sort xs v)

IsNodup-insert_sorted :
    (x : String) (ys : List String) → IsNodup ys → has ys x ≡ false → IsNodup (insert_sorted x ys)
IsNodup-insert_sorted x [] h n = (refl, tt)
IsNodup-insert_sorted x (y ∷ ys) (m, h) n =
    elim (Prim.Native.String.compare y x)
      as (λ o. IsNodup (elim o [ Ordering.lt ↦ y ∷ insert_sorted x ys | _ ↦ x ∷ y ∷ ys ])) [
        | Ordering.lt ↦ (
          ground (arith, has-insert_sorted x ys y, eq_iff x y, eq_iff y x),
          IsNodup-insert_sorted x ys h (ground arith),
        )
        | Ordering.eq ↦ (n, (m, h))
        | Ordering.gt ↦ (n, (m, h))
      ]

pub IsNodup-sort : (xs : List String) → IsNodup xs → IsNodup (sort xs)
IsNodup-sort [] h = tt
IsNodup-sort (x ∷ xs) (n, h) =
    IsNodup-insert_sorted x (sort xs) (IsNodup-sort xs h) (has-sort xs x ∙ n)

length-insert_sorted : (x : String) (ys : List String) → length (insert_sorted x ys) ≡ 1 + length ys
length-insert_sorted x [] = refl
length-insert_sorted x (y ∷ ys) = ground (arith, length-insert_sorted x ys)

pub length-sort : (xs : List String) → length (sort xs) ≡ length xs
length-sort [] = refl
length-sort (x ∷ xs) = omega (arith, length-insert_sorted x (sort xs), length-sort xs)

all_in-snoc :
    (s xs : List String) (x : String)
    → has s x ≡ true
    → all_in s xs ≡ true
    → all_in s (xs ++ x ∷ []) ≡ true
all_in-snoc s [] x h k = rw h refl
all_in-snoc s (y ∷ xs) x h k = ground (arith, all_in-snoc s xs x h)

pub all_in-add :
    (s xs : List String) (x : String)
    → has s x ≡ true
    → all_in s xs ≡ true
    → all_in s (add xs x) ≡ true
all_in-add s xs x h k = elim (Bool-cases (has xs x)) [
  | inl e ↦ rw e k
  | inr e ↦ rw e (all_in-snoc s xs x h k)
]

all_in-insert_sorted :
    (s : List String) (x : String) (ys : List String)
    → all_in s (insert_sorted x ys) ≡ (has s x && all_in s ys)
all_in-insert_sorted s x [] = refl
all_in-insert_sorted s x (y ∷ ys) = ground (arith, all_in-insert_sorted s x ys)

pub all_in-sort : (s xs : List String) → all_in s (sort xs) ≡ all_in s xs
all_in-sort s [] = refl
all_in-sort s (x ∷ xs) =
    all_in-insert_sorted s x (sort xs) ∙ ap (λ b. has s x && b) (all_in-sort s xs)
