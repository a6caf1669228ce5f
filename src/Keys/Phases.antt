-- ===== src/Keys/Phases.antt =====
-- The phase machine of a rotation, and the calls of src/keys/rotation-ceremony.ts as its steps.
use veri_node_backend.Prelude.{
  if_cases, &&-true, not-true, not-false, leb→le, ℕ, String, ◌≡◌, refl, sym, ap, inl, inr, true,
  false, not, ◌||◌, Option, none, some, ◌≤◌, ◌+◌,
}
use veri_node_backend.Prelude.Results.{same_ok, ok, err, >>=-eq-ok, guard->>-ok, or_throw->>=-ok}
use veri_node_backend.Dict.{get, set}
use veri_node_backend.Keys.Identifiers.{is_empty, Number}
use veri_node_backend.Keys.Registry.{retire_key, reserve_pending_key, get_current_signing_key}
use veri_node_backend.Keys.Activation.{activate_rotation}
use veri_node_backend.Keys.Broadcast.{Proposal, CommitResult}
use veri_node_backend.Keys.Ceremony.{
  of_registry, passing, assert_clock, Ceremony, RotationRecord, Attempt, is_initiated, is_approved,
  is_activated, is_phase_retired, has_rotation, initiated_record, activated_record, retired_record,
  rotation_of, initiate, activate, retire, old_key_retirement_slots,
}
use veri_node_backend.Keys.Approval.{
  Approving, Quorum, approved_record, propose, approve, attempt_settled, prove_quorum,
  persist_approval,
}

pub data CeremonyCall : Type 0 where
  initiates : String → String → String → ℕ → Number → Number → CeremonyCall
  approves : String → CeremonyCall
  persists : String → CommitResult → Number → CeremonyCall
  settles : String → CeremonyCall
  activates : String → Number → Number → CeremonyCall
  retires : String → Number → Number → CeremonyCall

abbrev pub left_after : {A : Type 0} → Attempt (A × Ceremony) → Ceremony → Ceremony
left_after (ok a) c = a.1
left_after (err e) c = c

abbrev pub after : CeremonyCall → Ceremony → Ceremony
after (initiates v key id stake e s) c = left_after (initiate v key id stake e s c) c
after (approves id) c = left_after (approve id c) c
after (persists id k e) c = left_after (persist_approval id k e c) c
after (settles id) c = attempt_settled id c
after (activates id e s) c = left_after (activate id e s c) c
after (retires id e s) c = left_after (retire id e s c) c

-- One step of a rotation: INITIATE to APPROVE by a quorum, on to ACTIVATE, and to RETIRE no earlier
-- than 4,096 slots after the activation.
pub data Advance (id : String) (r s : RotationRecord) : Type 0 where
  approving :
      (k : CommitResult) (q : Quorum) (e : ℕ)
      → is_initiated r.phase ≡ true
      → prove_quorum id k ≡ ok q
      → s ≡ approved_record r q e
      → Advance id r s
  activating : (e n : ℕ) → is_approved r.phase ≡ true → s ≡ activated_record r e n → Advance id r s
  retiring :
      (e n since : ℕ)
      → is_activated r.phase ≡ true
      → r.activation_slot ≡ some since
      → since + old_key_retirement_slots ≤ n
      → s ≡ retired_record r e
      → Advance id r s

-- What a call may do to the table of rotations.
pub data Change (c d : Ceremony) : Type 0 where
  unchanged : d.rotations ≡ c.rotations → Change c d
  created :
      (id v old new : String) (e n : ℕ)
      → has_rotation (get c.rotations id) ≡ false
      → d.rotations ≡ set c.rotations id (initiated_record id v old new e n)
      → Change c d
  advanced :
      (id : String) (r s : RotationRecord)
      → get c.rotations id ≡ some r
      → Advance id r s
      → d.rotations ≡ set c.rotations id s
      → Change c d

rotations_of : {A : Type 0} {a b : A × Ceremony} → a ≡ b → b.1.rotations ≡ a.1.rotations
rotations_of e = ap (λ x. x.1.rotations) (sym e)

persist_approval-Change :
    (id : String) (k : CommitResult) (e : Number) (c : Ceremony) {a : RotationRecord × Ceremony}
    → persist_approval id k e c ≡ ok a
    → Change c a.1
unfolding persist_approval
persist_approval-Change id k e c h =
    let (r, found, h1) = or_throw->>=-ok (get c.rotations id) _ _ h in
    elim (if_cases (not (is_initiated r.phase)) _ _ h1) [
      | inl y ↦ unchanged (rotations_of (same_ok y.1))
      | inr n ↦
          let (q, proven, h2) = >>=-eq-ok (prove_quorum id k) _ n.1 in
          let (at, _, h3) = >>=-eq-ok (assert_clock e) _ h2 in
          advanced id r (approved_record r q at) found
            (approving k q at (not-false (is_initiated r.phase) n.0) proven refl)
            (rotations_of (same_ok h3))
    ]

initiate-Change :
    (v key id : String) (stake : ℕ) (e n : Number) (c : Ceremony) {a : RotationRecord × Ceremony}
    → initiate v key id stake e n c ≡ ok a
    → Change c a.1
unfolding initiate
initiate-Change v key id stake e n c h =
    let (_, h1) = guard->>-ok _ _ _ h in
    let (epoch, _, h2) = >>=-eq-ok (assert_clock e) _ h1 in
    let (slot, _, h3) = >>=-eq-ok (assert_clock n) _ h2 in
    let (_, h4) = guard->>-ok _ _ _ h3 in
    let (old, _, h5) = or_throw->>=-ok (get_current_signing_key v c.registry) _ _ h4 in
    let (_, h6) = guard->>-ok _ _ _ h5 in
    let (t, h7) = guard->>-ok _ _ _ h6 in
    let (_, _, h8) =
      >>=-eq-ok (passing of_registry (reserve_pending_key v key (some epoch) c.registry)) _ h7 in
    created id v old.public_key key epoch slot
      (not-true (has_rotation (get c.rotations id))
        (&&-true (not (is_empty id)) (not (has_rotation (get c.rotations id))) t).1)
      (rotations_of (same_ok h8))

propose-Change :
    (o : Option Proposal) (id : String) (r : RotationRecord) (c : Ceremony)
    {a : Approving × Ceremony}
    → propose o id r c ≡ ok a
    → Change c a.1
propose-Change (some p) id r c h = unchanged (rotations_of (same_ok h))
propose-Change none id r c h = unchanged (rotations_of (same_ok h))

approve-Change :
    (id : String) (c : Ceremony) {a : Approving × Ceremony} → approve id c ≡ ok a → Change c a.1
unfolding approve
approve-Change id c h =
    let (r, found, h1) = or_throw->>=-ok (get c.rotations id) _ _ h in
    elim (if_cases (not (is_initiated r.phase)) _ _ h1) [
      | inl y ↦ unchanged (rotations_of (same_ok y.1))
      | inr n ↦ propose-Change (get c.approval_attempts id) id r c n.1
    ]

activate-Change :
    (id : String) (e n : Number) (c : Ceremony) {a : RotationRecord × Ceremony}
    → activate id e n c ≡ ok a
    → Change c a.1
unfolding activate
activate-Change id e n c h =
    let (r, found, h1) = or_throw->>=-ok (get c.rotations id) _ _ h in
    elim (if_cases (is_activated r.phase || is_phase_retired r.phase) _ _ h1) [
      | inl y ↦ unchanged (rotations_of (same_ok y.1))
      | inr m ↦
          let (t, h2) = guard->>-ok _ _ _ m.1 in
          let (epoch, _, h3) = >>=-eq-ok (assert_clock e) _ h2 in
          let (slot, _, h4) = >>=-eq-ok (assert_clock n) _ h3 in
          let (_, _, h5) =
            >>=-eq-ok
              (passing of_registry (activate_rotation (rotation_of r epoch slot) c.registry)) _
              h4 in
          advanced id r (activated_record r epoch slot) found (activating epoch slot t refl)
            (rotations_of (same_ok h5))
    ]

retire-Change :
    (id : String) (e n : Number) (c : Ceremony) {a : RotationRecord × Ceremony}
    → retire id e n c ≡ ok a
    → Change c a.1
unfolding retire
retire-Change id e n c h =
    let (r, found, h1) = or_throw->>=-ok (get c.rotations id) _ _ h in
    elim (if_cases (is_phase_retired r.phase) _ _ h1) [
      | inl y ↦ unchanged (rotations_of (same_ok y.1))
      | inr m ↦
          let (t, h2) = guard->>-ok _ _ _ m.1 in
          let (since, there, h3) = or_throw->>=-ok r.activation_slot _ _ h2 in
          let (slot, _, h4) = >>=-eq-ok (assert_clock n) _ h3 in
          let (epoch, _, h5) = >>=-eq-ok (assert_clock e) _ h4 in
          let (late, h6) = guard->>-ok _ _ _ h5 in
          let (_, _, h7) =
            >>=-eq-ok
              (passing of_registry
                (retire_key r.validator_id r.old_public_key (some epoch) c.registry))
              _ h6 in
          advanced id r (retired_record r epoch) found
            (retiring epoch slot since t there (leb→le (since + old_key_retirement_slots) slot late)
              refl)
            (rotations_of (same_ok h7))
    ]

left_after-Change :
    {A : Type 0} (m : Attempt (A × Ceremony)) (c : Ceremony)
    → ((a : A × Ceremony) → m ≡ ok a → Change c a.1)
    → Change c (left_after m c)
left_after-Change (ok a) c f = f a refl
left_after-Change (err e) c f = unchanged refl

-- Every call, whatever it returns or throws, leaves the table of rotations as it was, adds an
-- initiated rotation under a fresh id, or takes one rotation one step on.
pub after-Change : (m : CeremonyCall) (c : Ceremony) → Change c (after m c)
unfolding attempt_settled
after-Change (initiates v key id stake e n) c =
    left_after-Change (initiate v key id stake e n c) c
      (λ a h. initiate-Change v key id stake e n c h)
after-Change (approves id) c = left_after-Change (approve id c) c (λ a h. approve-Change id c h)
after-Change (persists id k e) c =
    left_after-Change (persist_approval id k e c) c (λ a h. persist_approval-Change id k e c h)
after-Change (settles id) c = unchanged refl
after-Change (activates id e n) c =
    left_after-Change (activate id e n c) c (λ a h. activate-Change id e n c h)
after-Change (retires id e n) c =
    left_after-Change (retire id e n c) c (λ a h. retire-Change id e n c h)
