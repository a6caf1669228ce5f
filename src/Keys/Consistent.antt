-- ===== src/Keys/Consistent.antt =====
-- The registry's indexes agree with its records, whatever is called.
use veri_node_backend.Prelude.{
  same_some, none-some, true-false, String, eq_refl, ◌≡◌, refl, sym, ap, subst, ◌∙◌, ◌⊎◌, inl, inr,
  Bool, true, false, ◌&&◌, Option, none, some, [],
}
use veri_node_backend.Prelude.Results.{same_ok, ok, >>=-eq-ok, or_absent->>-ok}
use veri_node_backend.Dict.{get, set, key_cases, Distinct, Distinct-set}
use veri_node_backend.Keys.Identifiers.{Number}
use veri_node_backend.Keys.Registry.{
  KeyRecord, KeyRegistry, is_active, is_pending, active_record, pending_record, register_active_key,
  reserve_pending_key, validate_registration, assert_protocol_number, or_number,
}
use veri_node_backend.Keys.Index.{put, set-put, Indexes, Indexes-quiet, Indexes-change, holds_at}

abbrev pub is_signing : KeyRecord → Bool
is_signing k = is_active k.state && k.signing_enabled

abbrev pub is_waiting : KeyRecord → Bool
is_waiting k = is_pending k.state

-- Each key stands under itself, and only active keys sign.
abbrev pub IsSound : (String → Option KeyRecord) → Type 0
IsSound K =
    (key : String) (k : KeyRecord)
    → K key ≡ some k
    → (k.public_key ≡ key) × ((is_active k.state ≡ true) ⊎ (k.signing_enabled ≡ false))

pub record IsConsistent (r : KeyRegistry) : Type 0 where
  pub signing : Indexes is_signing (get r.keys) (get r.current)
  pub waiting : Indexes is_waiting (get r.keys) (get r.pending_keys)
  pub sound : IsSound (get r.keys)
  pub one_current : Distinct r.current
  pub one_pending : Distinct r.pending_keys

pub IsSound-put :
    (K : String → Option KeyRecord) (key : String) (k : KeyRecord)
    → IsSound K
    → k.public_key ≡ key
    → (is_active k.state ≡ true) ⊎ (k.signing_enabled ≡ false)
    → IsSound (put K key (some k))
IsSound-put K key k h own fine j l e = elim (key_cases key j) [
  | inr n ↦ h j l (rw n at e)
  | inl p ↦
      let q : some k ≡ some l = rw (sym p, eq_refl key) at e in
      subst (λ m. (m.public_key ≡ j) × ((is_active m.state ≡ true) ⊎ (m.signing_enabled ≡ false)))
        (same_some q) (own ∙ p, fine)
]

-- A new record of a validator without an entry.
module _ (T : KeyRecord → Bool) (K : String → Option KeyRecord) (I : String → Option String)
    (h : Indexes T K I) where
  pub Indexes-enter :
      (key v : String) (k : KeyRecord)
      → holds_at T (K key) ≡ false
      → I v ≡ none
      → k.validator_id ≡ v
      → T k ≡ true
      → Indexes T (put K key (some k)) (put I v (some key))
  Indexes-enter key v k old slot own t =
      Indexes-change T K I h key v (some k) (some key) (inl slot)
        (λ l e u. absurd (true-false (sym u ∙ ap (holds_at T) (sym e) ∙ old)))
        (λ l e _. (subst (λ (m : KeyRecord). m.validator_id ≡ v) (same_some e) own, refl))
        (λ j e. (sym (same_some e), (k, refl, own, t)))

  pub Indexes-leave :
      (key v : String) (o : Option KeyRecord)
      → I v ≡ some key
      → holds_at T o ≡ false
      → ((k : KeyRecord) → K key ≡ some k → k.validator_id ≡ v)
      → Indexes T (put K key o) (put I v none)
  Indexes-leave key v o slot off old =
      Indexes-change T K I h key v o none (inr slot) (λ k e _. old k e)
        (λ k e t. absurd (true-false (sym t ∙ ap (holds_at T) (sym e) ∙ off)))
        (λ j e. absurd (none-some e))

abbrev pub empty_registry : KeyRegistry
empty_registry = record { keys = []; current = []; pending_keys = [] }

-- What an option passes, `none` fails.
pub none_fails : (T : KeyRecord → Bool) (o : Option KeyRecord) → o ≡ none → holds_at T o ≡ false
none_fails T o e = rw e refl

pub some_fails :
    (T : KeyRecord → Bool) (o : Option KeyRecord) (k : KeyRecord)
    → o ≡ some k
    → T k ≡ false
    → holds_at T o ≡ false
some_fails T o k e h = rw e h

module _ (r : KeyRegistry) (c : IsConsistent r) (key v : String) (k : KeyRecord)
    (own : k.validator_id ≡ v) (self : k.public_key ≡ key) where
  registered :
      get r.keys key ≡ none
      → get r.current v ≡ none
      → is_signing k ≡ true
      → is_active k.state ≡ true
      → is_waiting k ≡ false
      → IsConsistent (record r { keys = set r.keys key k; current = set r.current v key })
  registered fresh idle t a w = record {
    signing =
        rw (set-put r.keys key k, set-put r.current v key)
          (Indexes-enter is_signing (get r.keys) (get r.current) c.signing key v k
            (none_fails is_signing (get r.keys key) fresh) idle own t);
    waiting = rw (set-put r.keys key k) (
        Indexes-quiet is_waiting (get r.keys) (get r.pending_keys) c.waiting key (some k)
          (none_fails is_waiting (get r.keys key) fresh) w);
    sound = rw (set-put r.keys key k) (IsSound-put (get r.keys) key k c.sound self (inl a));
    one_current = Distinct-set r.current v key c.one_current;
    one_pending = c.one_pending;
  }

  reserved :
      get r.keys key ≡ none
      → get r.pending_keys v ≡ none
      → is_signing k ≡ false
      → k.signing_enabled ≡ false
      → is_waiting k ≡ true
      → IsConsistent (record r { keys = set r.keys key k; pending_keys = set r.pending_keys v key })
  reserved fresh idle s o w = record {
    signing = rw (set-put r.keys key k) (
        Indexes-quiet is_signing (get r.keys) (get r.current) c.signing key (some k)
          (none_fails is_signing (get r.keys key) fresh) s);
    waiting =
        rw (set-put r.keys key k, set-put r.pending_keys v key)
          (Indexes-enter is_waiting (get r.keys) (get r.pending_keys) c.waiting key v k
            (none_fails is_waiting (get r.keys key) fresh) idle own w);
    sound = rw (set-put r.keys key k) (IsSound-put (get r.keys) key k c.sound self (inr o));
    one_current = c.one_current;
    one_pending = Distinct-set r.pending_keys v key c.one_pending;
  }

pub register_active_key-IsConsistent :
    (validator key : String) (at : Number) (e s : Option Number) (r : KeyRegistry)
    {a : KeyRecord × KeyRegistry}
    → register_active_key validator key at e s r ≡ ok a
    → IsConsistent r
    → IsConsistent a.1
unfolding register_active_key
register_active_key-IsConsistent validator key at e s r h c =
    let (n, _, h1) = >>=-eq-ok (validate_registration validator key at) _ h in
    let (epoch, _, h2) = >>=-eq-ok (assert_protocol_number (or_number e at)) _ h1 in
    let (slot, _, h3) = >>=-eq-ok (assert_protocol_number (or_number s (some 0))) _ h2 in
    let (fresh, h4) = or_absent->>-ok (get r.keys key) _ _ h3 in
    let (idle, h5) = or_absent->>-ok (get r.current validator) _ _ h4 in
    subst (λ (a : KeyRecord × KeyRegistry). IsConsistent a.1) (same_ok h5)
      (registered r c key validator (active_record validator key n epoch slot) refl refl fresh idle
        refl refl refl)

pub reserve_pending_key-IsConsistent :
    (validator key : String) (at : Number) (r : KeyRegistry) {a : KeyRecord × KeyRegistry}
    → reserve_pending_key validator key at r ≡ ok a
    → IsConsistent r
    → IsConsistent a.1
unfolding reserve_pending_key
reserve_pending_key-IsConsistent validator key at r h c =
    let (n, _, h1) = >>=-eq-ok (validate_registration validator key at) _ h in
    let (fresh, h2) = or_absent->>-ok (get r.keys key) _ _ h1 in
    let (idle, h3) = or_absent->>-ok (get r.pending_keys validator) _ _ h2 in
    subst (λ (a : KeyRecord × KeyRegistry). IsConsistent a.1) (same_ok h3)
      (reserved r c key validator (pending_record validator key n) refl refl fresh idle refl refl
        refl)
