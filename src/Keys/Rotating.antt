-- ===== src/Keys/Rotating.antt =====
-- Release, activation and retirement keep the registry's indexes in agreement with its records.
use veri_node_backend.Prelude.{
  same_some, none-some, ℕ, String, str_eq, eq_iff, eq_refl, ◌≡◌, refl, sym, ap, subst, ◌∙◌, inl,
  inr, true, false, ◌&&◌, Option, none, some, Bool-cases, &&-true, if_cases,
}
use veri_node_backend.Prelude.Results.{same_ok, ok, >>=-eq-ok, guard->>-ok, or_throw->>=-ok}
use veri_node_backend.Dict.{get, set, remove, key_cases, Distinct-set, Distinct-remove}
use veri_node_backend.Keys.Registry.{
  KeyRecord, KeyRegistry, KeyState, pending, active, retired, is_active, is_pending, is_key,
  is_released, release_pending_key, assert_protocol_number,
}
use veri_node_backend.Keys.Activation.{
  deactivated, activated, both_done, repeated, Rotation, switch_keys, activate_rotation,
}
use veri_node_backend.Keys.Index.{put_here, put, set-put, remove-put, put_twice, Indexes-quiet}
use veri_node_backend.Keys.Consistent.{
  is_signing, is_waiting, IsSound, IsConsistent, IsSound-put, Indexes-enter, Indexes-leave,
  some_fails,
}

key_of : (o : Option String) (key : String) → is_key o key ≡ true → o ≡ some key
key_of none key h = cc
key_of (some j) key h = ap some ((eq_iff j key).0 h)

released_facts :
    (o : Option KeyRecord) (p : Option String) (v key : String)
    → is_released o p v key ≡ true
    → (k : KeyRecord) × (o ≡ some k)
      × (k.validator_id ≡ v)
      × (is_pending k.state ≡ true)
      × (p ≡ some key)
released_facts none p v key h = cc
released_facts (some k) p v key h =
    let (h1, there) = &&-true (str_eq k.validator_id v && is_pending k.state) (is_key p key) h in
    let (own, s) = &&-true (str_eq k.validator_id v) (is_pending k.state) h1 in
    (k, refl, (eq_iff k.validator_id v).0 own, s, key_of p key there)

not_signing : (k : KeyRecord) → is_pending k.state ≡ true → is_signing k ≡ false
not_signing k h =
    elim k.state as (λ s. is_pending s ≡ true → (is_active s && k.signing_enabled) ≡ false) [
      | pending ↦ λ _. refl
      | active ↦ λ e. cc
      | retired ↦ λ e. cc
    ]
      h

IsSound-drop : (K : String → Option KeyRecord) (key : String) → IsSound K → IsSound (put K key none)
IsSound-drop K key h j l e = elim (key_cases key j) [
  | inr n ↦ h j l (rw n at e)
  | inl p ↦ absurd (none-some (rw (sym p, eq_refl key) at e))
]

pub release_pending_key-IsConsistent :
    (v key : String) (r : KeyRegistry)
    → IsConsistent r
    → IsConsistent (release_pending_key v key r).1
unfolding release_pending_key
release_pending_key-IsConsistent v key r c =
    elim (Bool-cases (is_released (get r.keys key) (get r.pending_keys v) v key)) [
      | inr n ↦ rw n c
      | inl y ↦
          let (k, found, own, waits, there) =
            released_facts (get r.keys key) (get r.pending_keys v) v key y in
          rw y (record {
            signing = rw (remove-put r.keys key) (
                Indexes-quiet is_signing (get r.keys) (get r.current) c.signing key none
                  (some_fails is_signing (get r.keys key) k found (not_signing k waits)) refl);
            waiting =
                rw (remove-put r.keys key, remove-put r.pending_keys v)
                  (Indexes-leave is_waiting (get r.keys) (get r.pending_keys) c.waiting key v none
                    there refl
                    (λ l e.
                      subst (λ (m : KeyRecord). m.validator_id ≡ v) (same_some (sym found ∙ e))
                        own));
            sound = rw (remove-put r.keys key) (IsSound-drop (get r.keys) key c.sound);
            one_current = c.one_current;
            one_pending = Distinct-remove r.pending_keys v c.one_pending;
          })
    ]

active_pending : (s : KeyState) → is_active s ≡ true → is_pending s ≡ true → ⊥
active_pending pending h k = cc
active_pending active h k = cc
active_pending retired h k = cc

pub not_waiting : (s : KeyState) → is_active s ≡ true → is_pending s ≡ false
not_waiting pending h = cc
not_waiting active h = refl
not_waiting retired h = cc

-- Both records and both indexes change.
module _ (r : KeyRegistry) (c : IsConsistent r) (old new v : String) (k l : KeyRecord)
    (e s : ℕ) where
  module _ (found : get r.keys old ≡ some k) (own : k.validator_id ≡ v)
      (a : is_active k.state ≡ true) (found1 : get r.keys new ≡ some l) (own1 : l.validator_id ≡ v)
      (waits : is_pending l.state ≡ true) where
    between : String → Option KeyRecord
    between = put (get r.keys) old (some (deactivated k e s))

    apart : str_eq old new ≡ false
    apart = elim (key_cases old new) [
      | inr n ↦ n
      | inl p ↦ absurd (
          active_pending k.state a (
            subst (λ (m : KeyRecord). is_pending m.state ≡ true)
              (same_some (sym found1 ∙ ap (get r.keys) (sym p) ∙ found)) waits))
    ]

    then_new : between new ≡ some l
    unfolding between
    then_new = rw apart found1

    switched :
        get r.current v ≡ some old
        → get r.pending_keys v ≡ some new
        → IsConsistent (record {
          keys = set (set r.keys old (deactivated k e s)) new (activated l e s);
          current = set r.current v new;
          pending_keys = remove r.pending_keys v;
        })
    unfolding between
    switched signs there = record {
      signing =
          rw
            (
              set-put (set r.keys old (deactivated k e s)) new,
              set-put r.keys old,
              set-put r.current v new,
              sym (put_twice (get r.current) v none (some new)),
            )
            (Indexes-enter is_signing between (put (get r.current) v none)
              (Indexes-leave is_signing (get r.keys) (get r.current) c.signing old v
                (some (deactivated k e s)) signs (rw a refl)
                (λ m q.
                  subst (λ (m : KeyRecord). m.validator_id ≡ v) (same_some (sym found ∙ q)) own))
              new v (activated l e s)
              (some_fails is_signing (between new) l then_new (not_signing l waits))
              (put_here (get r.current) v none) own1 refl);
      waiting =
          rw
            (
              set-put (set r.keys old (deactivated k e s)) new,
              set-put r.keys old,
              remove-put r.pending_keys v,
            )
            (Indexes-leave is_waiting between (get r.pending_keys)
              (Indexes-quiet is_waiting (get r.keys) (get r.pending_keys) c.waiting old
                (some (deactivated k e s))
                (some_fails is_waiting (get r.keys old) k found (not_waiting k.state a))
                (not_waiting k.state a))
              new v (some (activated l e s)) there refl
              (λ m q.
                subst (λ (m : KeyRecord). m.validator_id ≡ v) (same_some (sym then_new ∙ q)) own1));
      sound =
          rw (set-put (set r.keys old (deactivated k e s)) new, set-put r.keys old)
            (IsSound-put between new (activated l e s)
              (IsSound-put (get r.keys) old (deactivated k e s) c.sound (c.sound old k found).0
                (inl a))
              (c.sound new l found1).0 (inl refl));
      one_current = Distinct-set r.current v new c.one_current;
      one_pending = Distinct-remove r.pending_keys v c.one_pending;
    }

switch_keys-IsConsistent :
    (i : Rotation) (epoch slot : ℕ) (r : KeyRegistry) {a : (KeyRecord × KeyRecord) × KeyRegistry}
    → switch_keys i epoch slot r ≡ ok a
    → IsConsistent r
    → IsConsistent a.1
unfolding switch_keys
switch_keys-IsConsistent i epoch slot r h c =
    let (k, found, h1) = or_throw->>=-ok (get r.keys i.old_public_key) _ _ h in
    let (t1, h2) = guard->>-ok _ _ _ h1 in
    let (t2, h3) = guard->>-ok _ _ _ h2 in
    let (l, found1, h4) = or_throw->>=-ok (get r.keys i.new_public_key) _ _ h3 in
    let (t3, h5) = guard->>-ok _ _ _ h4 in
    let (t4, h6) = guard->>-ok _ _ _ h5 in
    let (own, a) = &&-true (str_eq k.validator_id i.validator_id) (is_active k.state) t1 in
    let (own1, waits) = &&-true (str_eq l.validator_id i.validator_id) (is_pending l.state) t3 in
    let (_, signs) =
      &&-true k.signing_enabled (is_key (get r.current i.validator_id) i.old_public_key) t2 in
    subst (λ (a : (KeyRecord × KeyRecord) × KeyRegistry). IsConsistent a.1) (same_ok h6)
      (switched r c i.old_public_key i.new_public_key i.validator_id k l epoch slot found
        ((eq_iff k.validator_id i.validator_id).0 own) a found1
        ((eq_iff l.validator_id i.validator_id).0 own1) waits
        (key_of (get r.current i.validator_id) i.old_public_key signs)
        (key_of (get r.pending_keys i.validator_id) i.new_public_key t4))

repeated_keeps :
    (o n : Option KeyRecord) (epoch slot : ℕ) (r : KeyRegistry)
    {a : (KeyRecord × KeyRecord) × KeyRegistry}
    → repeated o n epoch slot r ≡ ok a
    → a.1 ≡ r
repeated_keeps o n epoch slot r h =
    let (_, h1) = guard->>-ok _ _ _ h in
    let (k, _, h2) = or_throw->>=-ok o _ _ h1 in
    let (l, _, h3) = or_throw->>=-ok n _ _ h2 in
    ap (λ (a : (KeyRecord × KeyRecord) × KeyRegistry). a.1) (sym (same_ok h3))

pub activate_rotation-IsConsistent :
    (i : Rotation) (r : KeyRegistry) {a : (KeyRecord × KeyRecord) × KeyRegistry}
    → activate_rotation i r ≡ ok a
    → IsConsistent r
    → IsConsistent a.1
unfolding activate_rotation
activate_rotation-IsConsistent i r h c =
    let (epoch, _, h1) = >>=-eq-ok (assert_protocol_number i.activation_epoch) _ h in
    let (slot, _, h2) = >>=-eq-ok (assert_protocol_number i.activation_slot) _ h1 in
    elim (if_cases
      (both_done (get r.keys i.old_public_key) (get r.keys i.new_public_key)
        (get r.current i.validator_id) i)
      _ _ h2) [
        | inl y ↦ subst IsConsistent (sym (repeated_keeps _ _ epoch slot r y.1)) c
        | inr n ↦ switch_keys-IsConsistent i epoch slot r n.1 c
      ]
