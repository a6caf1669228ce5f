-- ===== src/Keys/Forward.antt =====
-- A rotation of src/keys/rotation-ceremony.ts stays, and goes only forward.
use veri_node_backend.Prelude.{
  same_some, true-false, ℕ, String, eq_refl, ◌≡◌, refl, sym, ap, subst, ◌∙◌, inl, inr, true, some,
  List, [], ◌∷◌, ◌≤◌, arith,
}
use veri_node_backend.Dict.{get, get-set, key_cases}
use veri_node_backend.Keys.Ceremony.{
  Ceremony, RotationRecord, RotationPhase, initiated, approved, activated, retired, is_initiated,
  is_approved, has_rotation, get_rotation,
}
use veri_node_backend.Keys.Phases.{
  CeremonyCall, after, Advance, approving, activating, retiring, Change, unchanged, created,
  advanced, after-Change,
}
use veri_node_backend.Keys.Rotations.{run_calls}

abbrev pub rank : RotationPhase → ℕ
rank initiated = 0
rank approved = 1
rank activated = 2
rank retired = 3

-- The same rotation, at the same phase or a later one.
pub record IsLater (r s : RotationRecord) : Type 0 where
  pub same_id : s.rotation_id ≡ r.rotation_id
  pub same_validator : s.validator_id ≡ r.validator_id
  pub same_old_key : s.old_public_key ≡ r.old_public_key
  pub same_new_key : s.new_public_key ≡ r.new_public_key
  pub forward : rank r.phase ≤ rank s.phase

IsLater-refl : (r : RotationRecord) → IsLater r r
IsLater-refl r = record {
  same_id = refl;
  same_validator = refl;
  same_old_key = refl;
  same_new_key = refl;
  forward = omega arith;
}

IsLater-trans : (r s t : RotationRecord) → IsLater r s → IsLater s t → IsLater r t
IsLater-trans r s t h k = record {
  same_id = k.same_id ∙ h.same_id;
  same_validator = k.same_validator ∙ h.same_validator;
  same_old_key = k.same_old_key ∙ h.same_old_key;
  same_new_key = k.same_new_key ∙ h.same_new_key;
  forward = omega (arith, h.forward, k.forward);
}

rank-le : (p : RotationPhase) → rank p ≤ 3
rank-le initiated = omega arith
rank-le approved = omega arith
rank-le activated = omega arith
rank-le retired = omega arith

rank_initiated : (p : RotationPhase) → is_initiated p ≡ true → rank p ≡ 0
rank_initiated initiated h = refl
rank_initiated approved h = cc
rank_initiated activated h = cc
rank_initiated retired h = cc

rank_approved : (p : RotationPhase) → is_approved p ≡ true → rank p ≡ 1
rank_approved initiated h = cc
rank_approved approved h = refl
rank_approved activated h = cc
rank_approved retired h = cc

Advance-IsLater : (id : String) (r s : RotationRecord) → Advance id r s → IsLater r s
Advance-IsLater id r s (approving k q e w proven p) =
    subst (λ (s : RotationRecord). IsLater r s) (sym p)
      (record {
        same_id = refl;
        same_validator = refl;
        same_old_key = refl;
        same_new_key = refl;
        forward = omega (arith, rank_initiated r.phase w);
      })
Advance-IsLater id r s (activating e n w p) =
    subst (λ (s : RotationRecord). IsLater r s) (sym p)
      (record {
        same_id = refl;
        same_validator = refl;
        same_old_key = refl;
        same_new_key = refl;
        forward = omega (arith, rank_approved r.phase w);
      })
Advance-IsLater id r s (retiring e n since w there late p) =
    subst (λ (s : RotationRecord). IsLater r s) (sym p)
      (record {
        same_id = refl;
        same_validator = refl;
        same_old_key = refl;
        same_new_key = refl;
        forward = omega (arith, rank-le r.phase);
      })

abbrev Continues : Ceremony → String → RotationRecord → Type 0
Continues d id r = (s : RotationRecord) × (get d.rotations id ≡ some s) × IsLater r s

Change-Continues :
    (c d : Ceremony) (id : String) (r : RotationRecord)
    → Change c d
    → get c.rotations id ≡ some r
    → Continues d id r
Change-Continues c d id r (unchanged e) h = (r, rw e h, IsLater-refl r)
Change-Continues c d id r (created i v old new m n fresh e) h = elim (key_cases i id) [
  | inr n ↦ (r, rw (e, get-set, n) h, IsLater-refl r)
  | inl p ↦ absurd (true-false (rw (p, h, has_rotation) at fresh))
]
Change-Continues c d id r (advanced i t s found a e) h = elim (key_cases i id) [
  | inr n ↦ (r, rw (e, get-set, n) h, IsLater-refl r)
  | inl p ↦ (
    s,
    rw (e, get-set, p, eq_refl) refl,
    subst (λ (r : RotationRecord). IsLater r s) (same_some (sym found ∙ ap (get c.rotations) p ∙ h))
        (Advance-IsLater i t s a),
  )
]

-- Whatever calls follow, a rotation stays in the table under its id, with the same validator and the
-- same two keys, and its phase never goes back.
pub run_calls-IsLater :
    (ms : List CeremonyCall) (c : Ceremony) (id : String) (r : RotationRecord)
    → get_rotation id c ≡ some r
    → (s : RotationRecord) × (get_rotation id (run_calls ms c) ≡ some s) × IsLater r s
unfolding get_rotation
run_calls-IsLater [] c id r h = (r, h, IsLater-refl r)
run_calls-IsLater (m ∷ ms) c id r h =
    let (s, there, later) = Change-Continues c (after m c) id r (after-Change m c) h in
    let (t, last, latest) = run_calls-IsLater ms (after m c) id s there in
    (t, last, IsLater-trans r s t later latest)
