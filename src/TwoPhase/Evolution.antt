-- ===== src/TwoPhase/Evolution.antt =====
-- How the operations move a node through the state machine, one operation at a time.
use veri_node_backend.Prelude.{
  ℕ, String, ◌≡◌, refl, inl, inr, true, false, Option, none, some, if◌then◌else◌, Bool-cases,
}
use veri_node_backend.Dict.{get, get-set, split_key}
use veri_node_backend.TwoPhase.Tables.{
  NodeStatus, is_allowed, is_pending, NodeRow, TentativeRow, Tables, update_row, has_pending,
}
use veri_node_backend.TwoPhase.Rollback.{execute}
use veri_node_backend.TwoPhase.Effects.{
  mapped, get-update_row, execute-node_status, execute-tentative, rolled,
}
use veri_node_backend.TwoPhase.Controller.{
  World, Ticket, fresh_row, begun, commit_tx, force_commit_tx, mark_commit_failed,
  commit_failed_detail,
}

-- A walk along VALID_TRANSITIONS.
pub data Reaches (a : NodeStatus) : NodeStatus → Type 0 where
  here : Reaches a a
  next : {b : NodeStatus} (c : NodeStatus) → Reaches a b → is_allowed b c ≡ true → Reaches a c

pub Reaches-trans : {a b c : NodeStatus} → Reaches a b → Reaches b c → Reaches a c
Reaches-trans r here = r
Reaches-trans r (next c s e) = next c (Reaches-trans r s) e

-- A node keeps its row, and the status walks.
abbrev pub Moves : Option NodeRow → Option NodeRow → Type 0
Moves none none = Unit
Moves (some a) (some b) = Reaches a.status b.status
Moves _ _ = ⊥

pub Moves-refl : (o : Option NodeRow) → Moves o o
Moves-refl none = tt
Moves-refl (some a) = here

pub Moves-trans : (o p q : Option NodeRow) → Moves o p → Moves p q → Moves o q
Moves-trans none none none h k = tt
Moves-trans (some a) (some b) (some c) h k = Reaches-trans h k
Moves-trans none none (some c) h k = absurd k
Moves-trans none (some b) q h k = absurd h
Moves-trans (some a) none q h k = absurd h
Moves-trans (some a) (some b) none h k = absurd k

-- The node exists, and its status may go to `s`.
abbrev pub Targets : Option NodeRow → NodeStatus → Type 0
Targets none s = ⊥
Targets (some n) s = is_allowed n.status s ≡ true

abbrev pub CoherentAt : Option TentativeRow → Option NodeRow → Type 0
CoherentAt none n = Unit
CoherentAt (some r) n = is_pending r.state ≡ true → Targets n r.target_status

-- Every PENDING row names a legal next status of an existing node.
pub record IsCoherent (t : Tables) : Type 0 where
  pub at : (j : String) → CoherentAt (get t.tentative j) (get t.node_status j)

pub record Evolves (t u : Tables) : Type 0 where
  pub coherent : IsCoherent u
  pub moves : (j : String) → Moves (get t.node_status j) (get u.node_status j)

pub Evolves-refl : (t : Tables) → IsCoherent t → Evolves t t
Evolves-refl t c = record { coherent = c; moves = λ j. Moves-refl (get t.node_status j) }

pub Evolves-trans : (t u v : Tables) → Evolves t u → Evolves u v → Evolves t v
Evolves-trans t u v e f = record {
  coherent = f.coherent;
  moves = λ j.
      Moves-trans (get t.node_status j) (get u.node_status j) (get v.node_status j) (e.moves j)
        (f.moves j);
}

pub begun-Evolves :
    (w : World) (k : Ticket) (t : Tables)
    → IsCoherent t
    → Targets (get t.node_status k.node_id) k.target_status
    → Evolves t (begun w k t)
begun-Evolves w k t c legal = record {
  coherent = record {
    at = λ j. rw get-set (
        split_key
          (λ b i.
            CoherentAt (if b then some (fresh_row w k) else get t.tentative i)
              (get t.node_status i))
          k.node_id j (λ _. legal) (λ _. c.at j));
  };
  moves = λ j. Moves-refl (get t.node_status j);
}

-- A change of rows that leaves no new PENDING row and no other target.
rolled-CoherentAt :
    (reason : String) (now : ℕ) (r : Option TentativeRow) (n : Option NodeRow)
    → CoherentAt r n
    → CoherentAt (mapped (rolled reason now) r) n
rolled-CoherentAt reason now none n c = tt
rolled-CoherentAt reason now (some r) n c = elim (Bool-cases (is_pending r.state)) [
  | inl e ↦ rw e (λ h. cc)
  | inr e ↦ rw e (λ h. cc)
]

pub execute-Evolves :
    (node key : String) (target : NodeStatus) (reason : String) (now : ℕ) (t : Tables)
    → IsCoherent t
    → Evolves t (execute node key target reason now t).0
execute-Evolves node key target reason now t c = record {
  coherent = record {
    at = λ j.
        rw
          (
            execute-tentative node key target reason now t j,
            execute-node_status node key target reason now t,
          )
          (split_key
            (λ b i.
              CoherentAt
                (if b then mapped (rolled reason now) (get t.tentative i) else get t.tentative i)
                (get t.node_status i))
            node j
            (rolled-CoherentAt reason now (get t.tentative node) (get t.node_status node)
              (c.at node))
            (λ _. c.at j));
  };
  moves =
      λ j. rw (execute-node_status node key target reason now t) (Moves-refl (get t.node_status j));
}

resolved-CoherentAt :
    (f : TentativeRow → TentativeRow) (r : Option TentativeRow) (n : Option NodeRow)
    → ((row : TentativeRow) → is_pending (f row).state ≡ false)
    → CoherentAt (mapped f r) n
resolved-CoherentAt f none n h = tt
resolved-CoherentAt f (some row) n h = λ e. cc (h row)

edge-Moves :
    (target : NodeStatus) (now : ℕ) (n : Option NodeRow)
    → Targets n target
    → Moves n (mapped (λ row. record { status = target; updated_at = now }) n)
edge-Moves target now none legal = absurd legal
edge-Moves target now (some n) legal = next target here legal

-- Both commits: the status follows a legal edge, and the row is PENDING no more.
module _ (node : String) (target : NodeStatus) (now : ℕ) (f : TentativeRow → TentativeRow)
    (t : Tables) where
  abbrev settle : Tables
  settle = record t {
    node_status =
        update_row t.node_status node (λ row. record { status = target; updated_at = now });
    tentative = update_row t.tentative node f;
  }

  settle-Evolves :
      IsCoherent t
      → Targets (get t.node_status node) target
      → ((row : TentativeRow) → is_pending (f row).state ≡ false)
      → Evolves t settle
  settle-Evolves c legal h = record {
    coherent = record {
      at = λ j.
          rw (get-update_row t.tentative node, get-update_row t.node_status node)
            (split_key
              (λ b i. CoherentAt (if b then mapped f (get t.tentative i) else get t.tentative i) (
                if b
                then mapped (λ row. record { status = target; updated_at = now })
                    (get t.node_status i)
                else get t.node_status i))
              node j (resolved-CoherentAt f (get t.tentative node) _ h) (λ _. c.at j));
    };
    moves = λ j. rw (get-update_row t.node_status node) (
        split_key
          (λ b i. Moves (get t.node_status i) (
            if b
            then mapped (λ row. record { status = target; updated_at = now }) (get t.node_status i)
            else get t.node_status i))
          node j (edge-Moves target now (get t.node_status node) legal)
          (λ _. Moves-refl (get t.node_status j)));
  }

module _ (node : String) (target : NodeStatus) (now : ℕ) (t : Tables) (c : IsCoherent t)
    (legal : Targets (get t.node_status node) target) where
  pub commit_tx-Evolves : Evolves t (commit_tx node target now t)
  unfolding commit_tx
  commit_tx-Evolves = settle-Evolves node target now _ t c legal (λ row. refl)

  pub force_commit_tx-Evolves : Evolves t (force_commit_tx node target now t)
  unfolding force_commit_tx
  force_commit_tx-Evolves = settle-Evolves node target now _ t c legal (λ row. refl)

noted-CoherentAt :
    (d : Option String) (r : Option TentativeRow) (n : Option NodeRow)
    → CoherentAt r n
    → CoherentAt (mapped (λ row. record row { error_detail = d }) r) n
noted-CoherentAt d none n c = tt
noted-CoherentAt d (some row) n c = c

pub mark_commit_failed-Evolves :
    (node : String) (t : Tables) → IsCoherent t → Evolves t (mark_commit_failed node t)
unfolding mark_commit_failed
mark_commit_failed-Evolves node t c = elim (Bool-cases (has_pending t node)) [
  | inr e ↦ rw e (Evolves-refl t c)
  | inl e ↦ rw e (record {
    coherent = record {
      at = λ j. rw (get-update_row t.tentative node) (
          split_key
            (λ b i.
              CoherentAt
                (if b
                  then mapped (λ row. record row { error_detail = some commit_failed_detail })
                      (get t.tentative i)
                  else get t.tentative i)
                (get t.node_status i))
            node j (noted-CoherentAt _ (get t.tentative node) (get t.node_status node) (c.at node))
            (λ _. c.at j));
    };
    moves = λ j. Moves-refl (get t.node_status j);
  })
]
