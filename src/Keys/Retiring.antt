-- ===== src/Keys/Retiring.antt =====
-- Retirement keeps the indexes of src/keys/key-registry.ts in agreement with its records.
use veri_node_backend.Prelude.{
  ℕ, String, ◌≡◌, refl, subst, inl, inr, true, false, not, ◌&&◌, some, if◌then◌else◌, &&-true,
  not-true, if_cases,
}
use veri_node_backend.Prelude.Results.{same_ok, ok, >>=-eq-ok, guard->>-ok, or_throw->>=-ok}
use veri_node_backend.Dict.{get, set}
use veri_node_backend.Keys.Identifiers.{Number}
use veri_node_backend.Keys.Registry.{
  KeyRecord, KeyRegistry, retired, is_active, is_retired, Checked, retire_key,
  assert_protocol_number, is_set,
}
use veri_node_backend.Keys.Index.{set-put, Indexes-quiet}
use veri_node_backend.Keys.Consistent.{
  is_signing, is_waiting, IsConsistent, IsSound-put, some_fails,
}
use veri_node_backend.Keys.Rotating.{not_waiting}

module _ (r : KeyRegistry) (c : IsConsistent r) (key : String) (k : KeyRecord) (n : ℕ) where
  retired_record : KeyRecord
  retired_record = record k { state = retired; signing_enabled = false; retirement_epoch = some n }

  retires :
      get r.keys key ≡ some k
      → is_active k.state ≡ true
      → k.signing_enabled ≡ false
      → IsConsistent (record r { keys = set r.keys key retired_record })
  unfolding retired_record
  retires found a off = record {
    signing = rw (set-put r.keys key) (
        Indexes-quiet is_signing (get r.keys) (get r.current) c.signing key (some retired_record)
          (some_fails is_signing (get r.keys key) k found (rw (a, off) refl)) refl);
    waiting = rw (set-put r.keys key) (
        Indexes-quiet is_waiting (get r.keys) (get r.pending_keys) c.waiting key
          (some retired_record)
          (some_fails is_waiting (get r.keys key) k found (not_waiting k.state a)) refl);
    sound =
        rw (set-put r.keys key)
          (IsSound-put (get r.keys) key retired_record c.sound (c.sound key k found).0 (inr refl));
    one_current = c.one_current;
    one_pending = c.one_pending;
  }

pub retire_key-IsConsistent :
    (v key : String) (epoch : Number) (r : KeyRegistry) {a : KeyRecord × KeyRegistry}
    → retire_key v key epoch r ≡ ok a
    → IsConsistent r
    → IsConsistent a.1
unfolding retire_key retired_record
retire_key-IsConsistent v key epoch r {a} h c =
    let (n, _, h1) = >>=-eq-ok (assert_protocol_number epoch) _ h in
    let (k, found, h2) = or_throw->>=-ok (get r.keys key) _ _ h1 in
    let (_, h3) = guard->>-ok _ _ _ h2 in
    let go : (m : Checked (KeyRecord × KeyRegistry))
        → ((if is_retired k.state then ok (k, r) else m) ≡ ok a)
        → (m ≡ ok a → IsConsistent a.1)
        → IsConsistent a.1 =
      λ m e f. elim (if_cases (is_retired k.state) (ok (k, r)) m e) [
        | inl y ↦ subst (λ (b : KeyRecord × KeyRegistry). IsConsistent b.1) (same_ok y.1) c
        | inr q ↦ f q.1
      ] in
    go _ h3 (λ h4.
      let (t, h5) =
        guard->>-ok (is_active k.state && not k.signing_enabled && is_set k.deactivation_slot) _ _
          h4 in
      let (t1, _) =
        &&-true (is_active k.state && not k.signing_enabled) (is_set k.deactivation_slot) t in
      let (l, off) = &&-true (is_active k.state) (not k.signing_enabled) t1 in
      subst (λ (b : KeyRecord × KeyRegistry). IsConsistent b.1) (same_ok h5)
        (retires r c key k n found l (not-true k.signing_enabled off)))
