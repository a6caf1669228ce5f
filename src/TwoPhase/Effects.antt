-- ===== src/TwoPhase/Effects.antt =====
-- What each transaction does to the row of one node.
use veri_node_backend.Prelude.{
  ℕ, String, str_eq, ◌≡◌, refl, ◌⊎◌, inl, inr, true, false, Option, none, some, arith,
  if◌then◌else◌, Bool-cases, Option-cases, eq_refl, subst,
}
use veri_node_backend.Dict.{Dict, get, get-set, key_cases}
use veri_node_backend.TwoPhase.Tables.{
  pending_in, NodeStatus, is_allowed, RowState, is_pending, NodeRow, TentativeRow, Tables,
  update_row, has_pending,
}
use veri_node_backend.TwoPhase.Rollback.{cascade, execute}
use veri_node_backend.TwoPhase.Controller.{
  settled, get_node_status, commit_tx, Error, Result, ok, err, db_error, node_not_found,
  illegal_transition, already_pending, key_taken, World, Ticket, prepare, begun, make_ticket,
  phase_one, insert_tentative,
}

abbrev pub mapped {ℓ} : {V : Type ℓ} → (V → V) → Option V → Option V
mapped f none = none
mapped f (some v) = some (f v)

pub get-update_row {ℓ} :
    {V : Type ℓ} (d : Dict V) (k : String) (f : V → V) (j : String)
    → get (update_row d k f) j ≡ (if str_eq k j then mapped f (get d j) else get d j)
get-update_row d k f j = elim (Option-cases (get d k)) [
  | inl e ↦ elim (key_cases k j) [
    | inl p ↦
        rw (e, update_row)
          (subst (λ i. get d i ≡ (if str_eq k i then mapped f (get d i) else get d i)) p
            (rw (eq_refl k, e, mapped)))
    | inr p ↦ rw (e, update_row) (rw p)
  ]
  | inr (v, e) ↦ elim (key_cases k j) [
    | inl p ↦
        subst (λ i. get (update_row d k f) i ≡ (if str_eq k i then mapped f (get d i) else get d i))
          p (rw (e, update_row) (rw (get-set, eq_refl k)))
    | inr p ↦ rw (e, update_row) (rw (get-set, p))
  ]
]

pub execute-node_status :
    (node key : String) (target : NodeStatus) (reason : String) (now : ℕ) (t : Tables)
    → (execute node key target reason now t).0.node_status ≡ t.node_status
unfolding execute cascade
execute-node_status node key target reason now t = ground arith

abbrev rolled_row : String → ℕ → TentativeRow → TentativeRow
rolled_row reason now row = record row {
  state = RowState.rolled_back;
  error_detail = some reason;
  resolved_at = some now;
}

execute-tentative_if :
    (node key : String) (target : NodeStatus) (reason : String) (now : ℕ) (t : Tables)
    → (execute node key target reason now t).0.tentative ≡ (
        if has_pending t node
        then update_row t.tentative node (rolled_row reason now)
        else t.tentative)
unfolding execute cascade
execute-tentative_if node key target reason now t = ground arith

-- What a row looks like after a rollback of its node.
abbrev pub rolled : String → ℕ → TentativeRow → TentativeRow
rolled reason now row = if is_pending row.state then rolled_row reason now row else row

pub execute-tentative :
    (node key : String) (target : NodeStatus) (reason : String) (now : ℕ) (t : Tables) (j : String)
    → get (execute node key target reason now t).0.tentative j ≡ (
        if str_eq node j then mapped (rolled reason now) (get t.tentative j) else get t.tentative j)
unfolding has_pending
execute-tentative node key target reason now t j =
    rw (execute-tentative_if node key target reason now t) (elim (key_cases node j) [
      | inl p ↦
          subst
            (λ i.
              get
                (if has_pending t node
                  then update_row t.tentative node (rolled_row reason now)
                  else t.tentative)
                i
              ≡ (if str_eq node i
                  then mapped (rolled reason now) (get t.tentative i)
                  else get t.tentative i))
            p
            (ground
              (arith, eq_refl node, get-update_row t.tentative node (rolled_row reason now) node))
      | inr p ↦ ground (arith, p, get-update_row t.tentative node (rolled_row reason now) j)
    ])

abbrev pub Begins : World → Ticket → Tables → Result Ticket × Tables → Type 0
Begins w k t r =
    ((e : Error) × (r ≡ (err e, t)))
    ⊎ ((has_pending t k.node_id ≡ false) × (r ≡ (ok k, begun w k t)))

phase_one_cases : (w : World) (k : Ticket) (t : Tables) → Begins w k t (phase_one w k t)
unfolding phase_one insert_tentative
phase_one_cases w k t = elim (Bool-cases w.insert_fails) [
  | inl f ↦ inl (db_error, rw f)
  | inr f ↦ elim (Bool-cases (has_pending t k.node_id)) [
    | inl p ↦ elim (Bool-cases w.reread_fails) [
      | inl g ↦ inl (db_error, rw (f, p, g))
      | inr g ↦ inl (already_pending (get t.tentative k.node_id), rw (f, p, g))
    ]
    | inr p ↦ elim (Bool-cases (key_taken k.node_id k.idempotency_key t.tentative)) [
      | inl g ↦ inl (db_error, rw (f, p, g))
      | inr g ↦ inr (p, rw (f, p, g))
    ]
  ]
]

-- `prepare` throws and writes nothing, or it takes a legal edge from a node with no PENDING row.
abbrev pub Prepared : World → String → NodeStatus → Tables → Result Ticket × Tables → Type 0
Prepared w node target t r =
    ((e : Error) × (r ≡ (err e, t)))
    ⊎ ((row : NodeRow) × (get t.node_status node ≡ some row)
        × (is_allowed row.status target ≡ true)
        × (has_pending t node ≡ false)
        × (r ≡ (
          ok (make_ticket w node row.status target),
          begun w (make_ticket w node row.status target) t,
        )))

pub prepare_cases :
    (w : World) (node : String) (target : NodeStatus) (t : Tables)
    → Prepared w node target t (prepare w node target t)
unfolding prepare
prepare_cases w node target t = elim (Bool-cases w.read_fails) [
  | inl f ↦ inl (db_error, rw f)
  | inr f ↦ elim (Option-cases (get t.node_status node)) [
    | inl e ↦ inl (node_not_found, rw (f, e))
    | inr (row, e) ↦ elim (Bool-cases (is_allowed row.status target)) [
      | inl a ↦ elim (phase_one_cases w (make_ticket w node row.status target) t) [
        | inl (x, q) ↦ inl (x, rw (f, e, prepare) (rw a q))
        | inr (p, q) ↦ inr (row, e, a, p, rw (f, e, prepare) (rw a q))
      ]
      | inr a ↦ inl (illegal_transition row.status target, rw (f, e, prepare) (rw a))
    ]
  ]
]

rolled_none :
    (reason : String) (now : ℕ) (r : Option TentativeRow)
    → pending_in (mapped (rolled reason now) r) ≡ false
rolled_none reason now none = refl
rolled_none reason now (some row) = ground arith

-- After a rollback or a commit of a node, nothing is pending for it.
pub has_pending-execute :
    (node key : String) (target : NodeStatus) (reason : String) (now : ℕ) (t : Tables)
    → has_pending (execute node key target reason now t).0 node ≡ false
unfolding has_pending
has_pending-execute node key target reason now t =
    rw (execute-tentative node key target reason now t node, eq_refl node)
      (rolled_none reason now (get t.tentative node))

pub has_pending-commit_tx :
    (node : String) (target : NodeStatus) (now : ℕ) (t : Tables)
    → has_pending (commit_tx node target now t) node ≡ false
unfolding has_pending commit_tx
has_pending-commit_tx node target now t =
    rw (get-update_row t.tentative node, eq_refl node) (ground arith)

pub commit_tx-node_status :
    (node : String) (target : NodeStatus) (now : ℕ) (t : Tables) (row : NodeRow)
    → get t.node_status node ≡ some row
    → get (commit_tx node target now t).node_status node
      ≡ some (record { status = target; updated_at = now })
unfolding commit_tx
commit_tx-node_status node target now t row e =
    rw (get-update_row t.node_status node, eq_refl node) (rw e)

-- With nothing pending, a reader sees the committed status.
pub settled_status_lem :
    (node : String) (now : ℕ) (t : Tables) (row : NodeRow)
    → has_pending t node ≡ false
    → get t.node_status node ≡ some row
    → get_node_status node now t ≡ some (settled row.status)
unfolding has_pending get_node_status
settled_status_lem node now t row h e = ground arith

pub has_pending-begun :
    (w : World) (k : Ticket) (t : Tables) → has_pending (begun w k t) k.node_id ≡ true
unfolding has_pending
has_pending-begun w k t = rw get-set (rw eq_refl)
