-- ===== src/Keys/Calls.antt =====
-- Sequences of the registry's calls, and `assertConsistent` of src/keys/key-registry.ts.
use veri_node_backend.Prelude.{
  same_some, none-some, All, All-map, String, str_eq, eq_refl, ◌≡◌, refl, sym, ap, ◌∙◌, Bool, true,
  false, ◌&&◌, Option, none, some, List, [], ◌∷◌,
}
use veri_node_backend.Prelude.Results.{ok, err, guard, ◌>>◌}
use veri_node_backend.Dict.{Dict, get, get-empty, Distinct, Distinct-get}
use veri_node_backend.Keys.Identifiers.{Number}
use veri_node_backend.Keys.Registry.{
  get_current_signing_key, get_key, KeyRecord, KeyRegistry, Checked, registry_inconsistent,
  register_active_key, reserve_pending_key, release_pending_key, retire_key,
}
use veri_node_backend.Keys.Activation.{Rotation, activate_rotation}
use veri_node_backend.Keys.Index.{Indexes}
use veri_node_backend.Keys.Consistent.{
  is_signing, is_waiting, IsConsistent, empty_registry, register_active_key-IsConsistent,
  reserve_pending_key-IsConsistent,
}
use veri_node_backend.Keys.Rotating.{
  release_pending_key-IsConsistent, activate_rotation-IsConsistent,
}
use veri_node_backend.Keys.Retiring.{retire_key-IsConsistent}

pub data KeyCall : Type 0 where
  register : String → String → Number → Option Number → Option Number → KeyCall
  reserve : String → String → Number → KeyCall
  release : String → String → KeyCall
  activate : Rotation → KeyCall
  retire : String → String → Number → KeyCall

-- A call that throws has written nothing.
abbrev pub left_by : {A : Type 0} → Checked (A × KeyRegistry) → KeyRegistry → KeyRegistry
left_by (ok a) r = a.1
left_by (err e) r = r

abbrev pub call : KeyCall → KeyRegistry → KeyRegistry
call (register v k n e s) r = left_by (register_active_key v k n e s r) r
call (reserve v k n) r = left_by (reserve_pending_key v k n r) r
call (release v k) r = (release_pending_key v k r).1
call (activate i) r = left_by (activate_rotation i r) r
call (retire v k n) r = left_by (retire_key v k n r) r

abbrev pub run : List KeyCall → KeyRegistry → KeyRegistry
run [] r = r
run (c ∷ cs) r = run cs (call c r)

left_by-IsConsistent :
    {A : Type 0} (m : Checked (A × KeyRegistry)) (r : KeyRegistry)
    → ((a : A × KeyRegistry) → m ≡ ok a → IsConsistent a.1)
    → IsConsistent r
    → IsConsistent (left_by m r)
left_by-IsConsistent (ok a) r f c = f a refl
left_by-IsConsistent (err e) r f c = c

call-IsConsistent : (c : KeyCall) (r : KeyRegistry) → IsConsistent r → IsConsistent (call c r)
call-IsConsistent (register v k n e s) r h =
    left_by-IsConsistent (register_active_key v k n e s r) r
      (λ a q. register_active_key-IsConsistent v k n e s r q h) h
call-IsConsistent (reserve v k n) r h =
    left_by-IsConsistent (reserve_pending_key v k n r) r
      (λ a q. reserve_pending_key-IsConsistent v k n r q h) h
call-IsConsistent (release v k) r h = release_pending_key-IsConsistent v k r h
call-IsConsistent (activate i) r h =
    left_by-IsConsistent (activate_rotation i r) r (λ a q. activate_rotation-IsConsistent i r q h) h
call-IsConsistent (retire v k n) r h =
    left_by-IsConsistent (retire_key v k n r) r (λ a q. retire_key-IsConsistent v k n r q h) h

run-IsConsistent : (cs : List KeyCall) (r : KeyRegistry) → IsConsistent r → IsConsistent (run cs r)
run-IsConsistent [] r h = h
run-IsConsistent (c ∷ cs) r h = run-IsConsistent cs (call c r) (call-IsConsistent c r h)

empty_registry-IsConsistent : IsConsistent empty_registry
empty_registry-IsConsistent = record {
  signing = record {
    points = λ v key e. absurd (none-some (sym (get-empty v) ∙ e));
    pointed = λ key k e t. absurd (none-some (sym (get-empty key) ∙ e));
  };
  waiting = record {
    points = λ v key e. absurd (none-some (sym (get-empty v) ∙ e));
    pointed = λ key k e t. absurd (none-some (sym (get-empty key) ∙ e));
  };
  sound = λ key k e. absurd (none-some (sym (get-empty key) ∙ e));
  one_current = tt;
  one_pending = tt;
}

-- The record of an index entry, against the entry.
abbrev pub fits : (KeyRecord → Bool) → String → Option KeyRecord → Bool
fits T v none = false
fits T v (some k) = str_eq k.validator_id v && T k

unfoldable pub assert_index : (KeyRecord → Bool) → Dict KeyRecord → Dict String → Checked (Unit {0})
assert_index T keys [] = ok tt
assert_index T keys ((v, key) ∷ d) = do
  guard (fits T v (get keys key)) registry_inconsistent
  assert_index T keys d

unfoldable pub assert_consistent : KeyRegistry → Checked (Unit {0})
unfolding assert_index
assert_consistent r = do
  assert_index is_signing r.keys r.current
  assert_index is_waiting r.keys r.pending_keys

assert_index_passes :
    (T : KeyRecord → Bool) (keys : Dict KeyRecord) (d : Dict String)
    → All (λ (x : String × String). fits T x.0 (get keys x.1) ≡ true) d
    → assert_index T keys d ≡ ok tt
unfolding assert_index
assert_index_passes T keys [] h = refl
assert_index_passes T keys ((v, key) ∷ d) (p, h) = rw p (assert_index_passes T keys d h)

fits_lem :
    (T : KeyRecord → Bool) (v key : String) (o : Option KeyRecord)
    → (k : KeyRecord) × (o ≡ some k) × (k.validator_id ≡ v) × (T k ≡ true)
    → fits T v o ≡ true
fits_lem T v key o (k, e, own, t) = rw e (rw t (rw own (rw (eq_refl v) refl)))

index_passes :
    (T : KeyRecord → Bool) (keys : Dict KeyRecord) (d : Dict String)
    → Distinct d
    → Indexes T (get keys) (get d)
    → assert_index T keys d ≡ ok tt
index_passes T keys d one h = assert_index_passes T keys d (
    All-map (λ (x : String × String). get d x.0 ≡ some x.1)
      (λ (x : String × String). fits T x.0 (get keys x.1) ≡ true)
      (λ x e. fits_lem T x.0 x.1 (get keys x.1) (h.points x.0 x.1 e)) d (Distinct-get d one))

-- Whatever calls are made on a new registry, `assertConsistent` passes.
pub run-assert_consistent : (cs : List KeyCall) → assert_consistent (run cs empty_registry) ≡ ok tt
unfolding assert_consistent
run-assert_consistent cs =
    let c = run-IsConsistent cs empty_registry empty_registry-IsConsistent in
    let r = run cs empty_registry in
    rw (index_passes is_signing r.keys r.current c.one_current c.signing)
      (index_passes is_waiting r.keys r.pending_keys c.one_pending c.waiting)

-- Whatever calls are made on a new registry, two keys of one validator that may both sign are the
-- same key, and it is the one that `getCurrentSigningKey` answers.
pub signing_key_unique :
    (cs : List KeyCall) (a b : String) (k l : KeyRecord)
    → get_key a (run cs empty_registry) ≡ some k
    → get_key b (run cs empty_registry) ≡ some l
    → is_signing k ≡ true
    → is_signing l ≡ true
    → k.validator_id ≡ l.validator_id
    → (a ≡ b) × (get_current_signing_key k.validator_id (run cs empty_registry) ≡ some k)
unfolding get_key get_current_signing_key
signing_key_unique cs a b k l p q s t e =
    let c = run-IsConsistent cs empty_registry empty_registry-IsConsistent in
    let here = c.signing.pointed a k p s in
    (
      same_some (sym here ∙ ap (get (run cs empty_registry).current) e ∙ c.signing.pointed b l q t),
      rw (here, get_current_signing_key) p,
    )
