-- ===== src/TwoPhase/Race.antt =====
-- Calls that overlap: while one transition waits for its contract call, the row that it wrote may
-- be swept and the node may move on. `prepare`, `phase_two` and `finish` are its three parts.
use veri_node_backend.Prelude.{
  ℕ, String, eq_iff, ◌≡◌, ◌≢◌, refl, inl, inr, Bool, true, false, not, some, List, [], ◌∷◌, arith,
  keep, Bool-cases,
}
use veri_node_backend.Dict.{get}
use veri_node_backend.TwoPhase.Tables.{NodeStatus, TentativeRow, Adjustment, Tables, has_pending}
use veri_node_backend.TwoPhase.Rollback.{is_tagged, execute}
use veri_node_backend.TwoPhase.Effects.{has_pending-execute}
use veri_node_backend.TwoPhase.Cascade.{execute-Cascaded}

keep-keep-not :
    (p q : Adjustment → Bool)
    → ((a : Adjustment) → p a ≡ true → q a ≡ false)
    → (l : List Adjustment) → keep p (keep (λ a. not (q a)) l) ≡ keep p l
keep-keep-not p q h [] = refl
keep-keep-not p q h (a ∷ l) = elim (Bool-cases (p a)) [
  | inl e ↦ rw (e, h a e) (rw (e, keep-keep-not p q h l))
  | inr e ↦ elim (Bool-cases (q a)) [
    | inl f ↦ rw (e, f, keep-keep-not p q h l)
    | inr f ↦ rw (e, f) (rw (e, keep-keep-not p q h l))
  ]
]

other_tag :
    (node key key' : String) (a : Adjustment)
    → key ≢ key'
    → is_tagged node key a ≡ true
    → is_tagged node key' a ≡ false
other_tag node key key' a apart h =
    ground (arith, eq_iff a.idempotency_key key, eq_iff a.idempotency_key key')

-- The claim of a rollback does not look at the key: a transition that fails late, with key `key`,
-- rolls back the PENDING row of a newer transition with another key, and the reputation
-- adjustments that carry the newer key stay.
pub foreign_rollback :
    (node key : String) (target : NodeStatus) (reason : String) (now : ℕ) (t : Tables)
    (row : TentativeRow)
    → has_pending t node ≡ true
    → get t.tentative node ≡ some row
    → row.idempotency_key ≢ key
    → let (u, claimed) = execute node key target reason now t in
      (claimed ≡ true)
      × (has_pending u node ≡ false)
      × (keep (is_tagged node row.idempotency_key) u.adjustments
          ≡ keep (is_tagged node row.idempotency_key) t.adjustments)
foreign_rollback node key target reason now t row h found apart = (
  unfold execute in (rw (h, execute)),
  has_pending-execute node key target reason now t,
  rw (execute-Cascaded node key target reason now t h).adjustments (
      keep-keep-not (is_tagged node row.idempotency_key) (is_tagged node key)
        (λ a. other_tag node row.idempotency_key key a apart) t.adjustments),
)
