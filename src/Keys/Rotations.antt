-- ===== src/Keys/Rotations.antt =====
-- What holds of every rotation after any calls of src/keys/rotation-ceremony.ts.
use veri_node_backend.Prelude.{
  same_some, none-some, true-false, if_cases, &&-true, leb→le, ℕ, String, str_eq, eq_refl, ◌≡◌,
  refl, sym, ap, subst, ◌∙◌, ◌⊎◌, inl, inr, true, false, ◌&&◌, some, List, [], ◌∷◌, length, ◌≤◌,
  ◌*◌, ◌==◌, arith, leb,
}
use veri_node_backend.Prelude.Results.{same_ok, Result, ok, err, >>=-eq-ok, guard->>-ok}
use veri_node_backend.Dict.{Dict, get, get-empty, get-set, set, key_cases}
use veri_node_backend.Keys.Registry.{KeyRegistry}
use veri_node_backend.Keys.Sets.{IsNodup, IsNodup-distinct, distinct, all_in}
use veri_node_backend.Keys.Broadcast.{
  CommitResult, CommitError, calculate_rotation_approval_threshold,
}
use veri_node_backend.Keys.Ceremony.{
  Ceremony, RotationRecord, RotationPhase, initiated, approved, activated, retired, is_initiated,
  is_approved, is_activated, initiated_record, passing, of_commit, get_rotation,
}
use veri_node_backend.Keys.Approval.{Quorum, prove_quorum}
use veri_node_backend.Keys.Phases.{
  CeremonyCall, after, Advance, approving, activating, retiring, Change, unchanged, created,
  advanced, after-Change,
}

abbrev pub run_calls : List CeremonyCall → Ceremony → Ceremony
run_calls [] c = c
run_calls (m ∷ ms) c = run_calls ms (after m c)

abbrev pub new_ceremony : KeyRegistry → Ceremony
new_ceremony r = record {
  registry = r;
  rotations = [];
  active_rotation_by_validator = [];
  approval_attempts = [];
}

-- Two thirds of the validators have approved, none twice.
pub record IsQuorum (approvals validators : List String) : Type 0 where
  pub voters : IsNodup approvals
  pub electors : IsNodup validators
  pub eligible : all_in validators approvals ≡ true
  pub enough : 2 * length validators ≤ 3 * length approvals

threshold_enough : (n t : ℕ) → calculate_rotation_approval_threshold n ≡ ok t → 2 * n ≤ 3 * t
unfolding calculate_rotation_approval_threshold
threshold_enough n t h = elim (if_cases (n == 0) _ _ h) [
  | inl x ↦ absurd (err_ok x.1)
  | inr x ↦ omega (arith, same_ok x.1)
]
  where
    err_ok : {t : ℕ} {e : CommitError} → ◌≡◌ {A = Result CommitError ℕ} (err e) (ok t) → ⊥
    err_ok h = cc

passing-ok : (m : Result CommitError ℕ) {t : ℕ} → passing of_commit m ≡ ok t → m ≡ ok t
passing-ok (ok n) h = ap (λ x. ok x) (same_ok h)
passing-ok (err e) h = cc

prove_quorum-IsQuorum :
    (id : String) (k : CommitResult) (q : Quorum)
    → prove_quorum id k ≡ ok q
    → IsQuorum q.approvals q.validators
unfolding prove_quorum
prove_quorum-IsQuorum id k q h =
    let validators = distinct k.active_validator_ids in
    let approvals = distinct k.approvals in
    let (t, counts, h1) =
      >>=-eq-ok (passing of_commit (calculate_rotation_approval_threshold (length validators))) _
        h in
    let (good, h2) = guard->>-ok _ _ _ h1 in
    let (most, inside) =
      &&-true (str_eq k.rotation_id id && k.approval_threshold == t && leb t (length approvals))
        (all_in validators approvals) good in
    let (_, many) =
      &&-true (str_eq k.rotation_id id && k.approval_threshold == t) (leb t (length approvals))
        most in
    subst (λ (q : Quorum). IsQuorum q.approvals q.validators) (same_ok h2)
      (record {
        voters = IsNodup-distinct k.approvals;
        electors = IsNodup-distinct k.active_validator_ids;
        eligible = inside;
        enough = omega (
          arith,
          threshold_enough (length validators) t (passing-ok _ counts),
          leb→le t (length approvals) many,
        );
      })

-- An initiated rotation, or one with a quorum.
abbrev pub IsLawful : RotationRecord → Type 0
IsLawful r = (is_initiated r.phase ≡ true) ⊎ IsQuorum r.approvals r.approval_validator_set

not_initiated : (p : RotationPhase) → is_approved p ≡ true → is_initiated p ≡ false
not_initiated initiated h = cc
not_initiated approved h = refl
not_initiated activated h = cc
not_initiated retired h = cc

not_initiated' : (p : RotationPhase) → is_activated p ≡ true → is_initiated p ≡ false
not_initiated' initiated h = cc
not_initiated' approved h = cc
not_initiated' activated h = refl
not_initiated' retired h = cc

had-IsQuorum :
    (r : RotationRecord)
    → is_initiated r.phase ≡ false
    → IsLawful r
    → IsQuorum r.approvals r.approval_validator_set
had-IsQuorum r n (inl e) = absurd (true-false (sym e ∙ n))
had-IsQuorum r n (inr q) = q

Advance-IsLawful : (id : String) (r s : RotationRecord) → Advance id r s → IsLawful r → IsLawful s
Advance-IsLawful id r s (approving k q e w proven p) h =
    subst IsLawful (sym p) (inr (prove_quorum-IsQuorum id k q proven))
Advance-IsLawful id r s (activating e n w p) h =
    subst IsLawful (sym p) (inr (had-IsQuorum r (not_initiated r.phase w) h))
Advance-IsLawful id r s (retiring e n since w there late p) h =
    subst IsLawful (sym p) (inr (had-IsQuorum r (not_initiated' r.phase w) h))

abbrev IsLawfulTable : Dict RotationRecord → Type 0
IsLawfulTable d = (id : String) (r : RotationRecord) → get d id ≡ some r → IsLawful r

IsLawfulTable-set :
    (d : Dict RotationRecord) (id : String) (s : RotationRecord)
    → IsLawful s
    → IsLawfulTable d
    → IsLawfulTable (set d id s)
IsLawfulTable-set d id s t h j r e = elim (key_cases id j) [
  | inl p ↦ subst IsLawful (same_some (rw (get-set d id s j, sym p, eq_refl id) at e)) t
  | inr n ↦ h j r (rw (get-set d id s j, n) at e)
]

Change-IsLawful :
    (c d : Ceremony) → Change c d → IsLawfulTable c.rotations → IsLawfulTable d.rotations
Change-IsLawful c d (unchanged e) h = subst IsLawfulTable (sym e) h
Change-IsLawful c d (created id v old new m n fresh e) h =
    subst IsLawfulTable (sym e)
      (IsLawfulTable-set c.rotations id (initiated_record id v old new m n) (inl refl) h)
Change-IsLawful c d (advanced id r s found a e) h =
    subst IsLawfulTable (sym e)
      (IsLawfulTable-set c.rotations id s (Advance-IsLawful id r s a (h id r found)) h)

run_calls-IsLawful :
    (ms : List CeremonyCall) (c : Ceremony)
    → IsLawfulTable c.rotations
    → IsLawfulTable (run_calls ms c).rotations
run_calls-IsLawful [] c h = h
run_calls-IsLawful (m ∷ ms) c h =
    run_calls-IsLawful ms (after m c) (Change-IsLawful c (after m c) (after-Change m c) h)

-- After any calls on a new ceremony, a rotation that is no longer in INITIATE has the approvals of at
-- least two thirds of the validators that it records, each of them counted once.
pub run_calls-IsQuorum :
    (registry : KeyRegistry) (ms : List CeremonyCall) (id : String) (r : RotationRecord)
    → get_rotation id (run_calls ms (new_ceremony registry)) ≡ some r
    → is_initiated r.phase ≡ false
    → IsQuorum r.approvals r.approval_validator_set
unfolding get_rotation
run_calls-IsQuorum registry ms id r found later = had-IsQuorum r later (
    run_calls-IsLawful ms (new_ceremony registry)
      (λ j s e. absurd (none-some (sym (get-empty j) ∙ e))) id r found)
