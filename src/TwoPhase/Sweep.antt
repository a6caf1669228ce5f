-- ===== src/TwoPhase/Sweep.antt =====
-- The cleanup worker's sweep: what it leaves alone, what it resolves, and what it counts.
use veri_node_backend.Prelude.{
  length-keep-le, ◌∙◌, All-pair, subst, All-map, inr, inl, ℕ, zero, suc, ◌+◌, ◌≤◌, String, str_eq,
  eq_iff, ◌≡◌, refl, Bool, true, false, not, ◌&&◌, ◌||◌, Option, none, some, List, [], ◌∷◌, arith,
  leb, length, take, keep, All, All-keep, keep-passes, Bool-cases,
}
use veri_node_backend.Dict.{Dict, get, Distinct, Distinct-get}
use veri_node_backend.TwoPhase.Tables.{TentativeRow, Tables, has_pending, pending_in}
use veri_node_backend.TwoPhase.Rollback.{execute}
use veri_node_backend.TwoPhase.Effects.{
  rolled, mapped, execute-tentative, execute-node_status, has_pending-execute,
}
use veri_node_backend.TwoPhase.Cleanup.{
  Worker, SweepState, is_expired, insert_by_expiry, order_by_expiry, select_expired, sweep_reason,
  sweep_row, sweep_rows, sweep,
}
use veri_node_backend.TwoPhase.History.{sweep_row-tables}

abbrev Entry : Type 0
Entry = String × TentativeRow

module _ (P : Entry → Type 0) where
  All-insert : (x : Entry) (l : List Entry) → P x → All P l → All P (insert_by_expiry x l)
  unfolding insert_by_expiry
  All-insert (n, r) [] p h = (p, tt)
  All-insert (n, r) ((m, s) ∷ l) p (q, h) = elim (Bool-cases (leb r.expires_at s.expires_at)) [
    | inl e ↦ rw e (p, (q, h))
    | inr e ↦ rw e (q, All-insert (n, r) l p h)
  ]

  All-order : (l : List Entry) → All P l → All P (order_by_expiry l)
  unfolding order_by_expiry
  All-order [] h = tt
  All-order (x ∷ l) (p, h) = All-insert x (order_by_expiry l) p (All-order l h)

  All-take : (n : ℕ) (l : List Entry) → All P l → All P (take n l)
  All-take zero l h = tt
  All-take (suc n) [] h = tt
  All-take (suc n) (x ∷ l) (p, h) = (p, All-take n l h)

-- Some entry of the list has the key `j`.
abbrev covers : String → List Entry → Bool
covers j [] = false
covers j ((m, r) ∷ l) = str_eq m j || covers j l

covers-insert :
    (j : String) (x : Entry) (l : List Entry)
    → covers j (insert_by_expiry x l) ≡ (str_eq x.0 j || covers j l)
unfolding insert_by_expiry
covers-insert j (n, r) [] = refl
covers-insert j (n, r) ((m, s) ∷ l) = ground (arith, covers-insert j (n, r) l)

covers-order : (j : String) (l : List Entry) → covers j (order_by_expiry l) ≡ covers j l
unfolding order_by_expiry
covers-order j [] = refl
covers-order j ((n, r) ∷ l) =
    ground (arith, covers-insert j (n, r) (order_by_expiry l), covers-order j l)

length-insert : (x : Entry) (l : List Entry) → length (insert_by_expiry x l) ≡ suc (length l)
unfolding insert_by_expiry
length-insert (n, r) [] = refl
length-insert (n, r) ((m, s) ∷ l) = ground (arith, length-insert (n, r) l)

length-order : (l : List Entry) → length (order_by_expiry l) ≡ length l
unfolding order_by_expiry
length-order [] = refl
length-order (x ∷ l) = omega (arith, length-insert x (order_by_expiry l), length-order l)

take_all : (n : ℕ) (l : List Entry) → length l ≤ n → take n l ≡ l
take_all zero [] h = refl
take_all (suc n) [] h = refl
take_all zero (x ∷ l) h = absurd (omega arith)
take_all (suc n) (x ∷ l) h = rw (take_all n l (omega arith))

covers-keep :
    (j : String) (p : Entry → Bool) (d : Dict TentativeRow) (row : TentativeRow)
    → get d j ≡ some row
    → p (j, row) ≡ true
    → covers j (keep p d) ≡ true
unfolding get
covers-keep j p [] row e h = cc
covers-keep j p ((m, r) ∷ d) row e h = elim (Bool-cases (str_eq m j)) [
  | inl q ↦
      let found : some r ≡ some row = rw q at e in
      let passes : p (m, r) ≡ true = cc (found, (eq_iff m j).0 q) in rw passes (rw q)
  | inr q ↦
      let rest = covers-keep j p d row (rw q at e) h in
      elim (Bool-cases (p (m, r))) [ inl g ↦ rw g (rw (q, rest)) | inr g ↦ rw g rest ]
]

sweep_rows-nodes :
    (now : ℕ) (fails : ℕ → Bool) (i : ℕ) (l : List Entry) (s : SweepState)
    → (sweep_rows now fails i l s).1.tables.node_status ≡ s.tables.node_status
unfolding sweep_rows
sweep_rows-nodes now fails i [] s = refl
sweep_rows-nodes now fails i ((m, r) ∷ l) s = elim (Bool-cases (fails i)) [
  | inl f ↦ rw f
  | inr f ↦ rw (
    f,
    sweep_rows-nodes now fails (i + 1) l (sweep_row now (m, r) s),
    sweep_row-tables now m r s,
    execute-node_status m r.idempotency_key r.target_status sweep_reason now s.tables,
  )
]

-- Rows of other nodes are left as they are.
sweep_rows-other :
    (j : String) (now : ℕ) (fails : ℕ → Bool) (i : ℕ) (l : List Entry) (s : SweepState)
    → All (λ x. str_eq x.0 j ≡ false) l
    → get (sweep_rows now fails i l s).1.tables.tentative j ≡ get s.tables.tentative j
unfolding sweep_rows
sweep_rows-other j now fails i [] s h = refl
sweep_rows-other j now fails i ((m, r) ∷ l) s (n, h) = elim (Bool-cases (fails i)) [
  | inl f ↦ rw f
  | inr f ↦ rw (
    f,
    sweep_rows-other j now fails (i + 1) l (sweep_row now (m, r) s) h,
    sweep_row-tables now m r s,
    execute-tentative m r.idempotency_key r.target_status sweep_reason now s.tables j,
    n,
  )
]

stays_settled :
    (j m key : String) (r : TentativeRow) (now : ℕ) (t : Tables)
    → has_pending t j ≡ false
    → has_pending (execute m key r.target_status sweep_reason now t).0 j ≡ false
unfolding has_pending
stays_settled j m key r now t h =
    rw (execute-tentative m key r.target_status sweep_reason now t j)
      (elim (Bool-cases (str_eq m j)) [
        | inl e ↦ rw e (still (get t.tentative j) h)
        | inr e ↦ rw e h
      ])
  where
    still :
        (o : Option TentativeRow)
        → pending_in o ≡ false
        → pending_in (mapped (rolled sweep_reason now) o) ≡ false
    still none h = h
    still (some row) h = ground arith

sweep_rows-stay :
    (j : String) (now : ℕ) (i : ℕ) (l : List Entry) (s : SweepState)
    → has_pending s.tables j ≡ false
    → has_pending (sweep_rows now (λ _. false) i l s).1.tables j ≡ false
unfolding sweep_rows
sweep_rows-stay j now i [] s h = h
sweep_rows-stay j now i ((m, r) ∷ l) s h =
    sweep_rows-stay j now (i + 1) l (sweep_row now (m, r) s)
      (rw (sweep_row-tables now m r s) (stays_settled j m r.idempotency_key r now s.tables h))

sweep_rows-settle :
    (j : String) (now : ℕ) (i : ℕ) (l : List Entry) (s : SweepState)
    → covers j l ≡ true
    → has_pending (sweep_rows now (λ _. false) i l s).1.tables j ≡ false
unfolding sweep_rows
sweep_rows-settle j now i [] s h = cc
sweep_rows-settle j now i ((m, r) ∷ l) s h = elim (Bool-cases (str_eq m j)) [
  | inl e ↦ sweep_rows-stay j now (i + 1) l (sweep_row now (m, r) s) (
      rw (sweep_row-tables now m r s) (
        subst
          (λ k.
            has_pending (execute m r.idempotency_key r.target_status sweep_reason now s.tables).0 k
            ≡ false)
          ((eq_iff m j).0 e)
          (has_pending-execute m r.idempotency_key r.target_status sweep_reason now s.tables)))
  | inr e ↦ sweep_rows-settle j now (i + 1) l (sweep_row now (m, r) s) (rw e at h)
]

and_left : (a b : Bool) → (a && b) ≡ true → a ≡ true
and_left true b h = refl
and_left false b h = h

-- With a primary key on node_id, a sweep, finished or cut short, leaves node_status alone, and
-- leaves the tentative row of every node alone whose row does not meet the sweep's condition: not
-- PENDING, not yet expired, or marked COMMIT_FAILED.
pub sweep_safe :
    (now : ℕ) (select_fails : Bool) (locked : String → Bool) (fails : ℕ → Bool) (w : Worker)
    (t : Tables) (j : String) (row : TentativeRow)
    → Distinct t.tentative
    → get t.tentative j ≡ some row
    → is_expired now (j, row) ≡ false
    → let u = (sweep now select_fails locked fails w t).2 in
      (u.node_status ≡ t.node_status) × (get u.tentative j ≡ some row)
unfolding sweep select_expired
sweep_safe now true locked fails w t j row key e h = (refl, e)
sweep_safe now false locked fails w t j row key e h = (
  sweep_rows-nodes now fails 0 _ _,
  sweep_rows-other j now fails 0 (select_expired w.batch_size now locked t) _ (
        All-map (λ x. (get t.tentative x.0 ≡ some x.1) × (test x ≡ true))
          (λ x. str_eq x.0 j ≡ false) apart _
          (All-take _ w.batch_size _ (
            All-order _ _ (
              All-pair _ _ (keep test t.tentative) (All-keep _ test _ (Distinct-get _ key))
                (keep-passes test t.tentative)))))
      ∙ e,
)
  where
    test : Entry → Bool
    test x = is_expired now x && not (locked x.0)

    apart : (x : Entry) → (get t.tentative x.0 ≡ some x.1) × (test x ≡ true) → str_eq x.0 j ≡ false
    apart (m, r) (found, pass) = elim (Bool-cases (str_eq m j)) [
      | inr n ↦ n
      | inl q ↦ cc ((eq_iff m j).0 q, and_left (is_expired now (m, r)) (not (locked m)) pass)
    ]

-- A sweep that nothing interrupts and whose batch is large enough resolves every expired PENDING
-- row that no other session has locked and that is not marked COMMIT_FAILED.
pub sweep_complete :
    (now : ℕ) (locked : String → Bool) (w : Worker) (t : Tables) (j : String) (row : TentativeRow)
    → length t.tentative ≤ w.batch_size
    → get t.tentative j ≡ some row
    → is_expired now (j, row) ≡ true
    → locked j ≡ false
    → has_pending (sweep now false locked (λ _. false) w t).2 j ≡ false
unfolding sweep select_expired
sweep_complete now locked w t j row fits e h free =
    sweep_rows-settle j now 0 (select_expired w.batch_size now locked t) _ (
      rw (take_all w.batch_size _ few, covers-order)
        (covers-keep j test t.tentative row e (rw (h, free))))
  where
    test : Entry → Bool
    test x = is_expired now x && not (locked x.0)

    few : length (order_by_expiry (keep test t.tentative)) ≤ w.batch_size
    few = omega (arith, length-order (keep test t.tentative), length-keep-le test t.tentative)
