-- ===== src/Bond/Amounts.antt =====
-- Arithmetic on signed amounts that the bond pools need.
use veri_node_backend.Prelude.{◌≡◌, true, false, arith, ap}
use veri_node_backend.Prelude.Int.{
  ℤ, pos, negsuc, ◌+ℤ◌, ◌-ℤ◌, ◌≤ℤ◌, ltb_ℤ, int_laws, -ℤ_parts, pos_part, neg_part,
}
use veri_node_backend.Bond.Memory.{is_zero}
use veri_node_backend.Bond.Sums.{IsNonneg}

pub take_old : (a g b v o c : ℤ) → a +ℤ g ≡ b +ℤ v → g ≡ o → v ≡ o +ℤ c → a ≡ b +ℤ c
take_old a g b v o c e f k = omega (
  int_laws,
  ap pos_part e,
  ap neg_part e,
  ap pos_part f,
  ap neg_part f,
  ap pos_part k,
  ap neg_part k,
)

pub take_none : (a g b v : ℤ) → a +ℤ g ≡ b +ℤ v → g ≡ pos 0 → v ≡ pos 0 → a ≡ b +ℤ pos 0
take_none a g b v e f k = omega (
  int_laws,
  ap pos_part e,
  ap neg_part e,
  ap pos_part f,
  ap neg_part f,
  ap pos_part k,
  ap neg_part k,
)

pub sum-IsNonneg : (a b : ℤ) → IsNonneg a → IsNonneg b → IsNonneg (a +ℤ b)
sum-IsNonneg a b h k = omega int_laws

pub not_below : (a b : ℤ) → ltb_ℤ a b ≡ false → b ≤ℤ a
not_below a b h = ground arith

pub sub-IsNonneg : (a b : ℤ) → ltb_ℤ a b ≡ false → IsNonneg (a -ℤ b)
sub-IsNonneg a b h = ground (arith, -ℤ_parts a b)

pub sub_limited : (a b m : ℤ) → IsNonneg b → a ≤ℤ m → a -ℤ b ≤ℤ m
sub_limited a b m h k = omega int_laws

pub minus_plus : (a b : ℤ) → a -ℤ b ≡ a +ℤ (pos 0 -ℤ b)
minus_plus a b = omega int_laws

pub is_zero-eq : (x : ℤ) → is_zero x ≡ true → x ≡ pos 0
is_zero-eq (pos n) h = ground arith
is_zero-eq (negsuc n) h = cc

pub drop_all :
    (a g b e m : ℤ) → a +ℤ g ≡ b → g ≡ e → is_zero (e -ℤ m) ≡ true → a ≡ b +ℤ (pos 0 -ℤ m)
drop_all a g b e m s t z =
    let k = is_zero-eq (e -ℤ m) z in
    omega (
      int_laws,
      ap pos_part s,
      ap neg_part s,
      ap pos_part t,
      ap neg_part t,
      ap pos_part k,
      ap neg_part k,
    )

pub drop_none : (a g b : ℤ) → a +ℤ g ≡ b → g ≡ pos 0 → a ≡ b +ℤ pos 0
drop_none a g b e f = omega (int_laws, ap pos_part e, ap neg_part e, ap pos_part f, ap neg_part f)

pub plus_zero : (x : ℤ) → x +ℤ pos 0 ≡ x
plus_zero x = omega int_laws
