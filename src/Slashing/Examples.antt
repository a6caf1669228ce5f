-- ===== src/Slashing/Examples.antt =====
-- Concrete runs of the slashing sequencer, and the theorems at them.
use veri_node_backend.Prelude.{String, All, ℕ, ◌≡◌, refl, true, none, some, List, [], ◌∷◌, arith}
use veri_node_backend.Slashing.Wal.{
  pending, WalEntry, NonceStore, append_file, append_all, add_entry, flush, append,
  advance_water_mark, get_water_mark, parse_lines, replay_unconfirmed, one_per_line,
  purge_confirmed,
}
use veri_node_backend.Slashing.Sequencer.{
  Sequencer, success, failure, reserve_nonce, begin_request, advance, complete_request, started,
  start, begins, completes, Event, step, run,
}
use veri_node_backend.Slashing.Order.{begun, begun_in_order}
use veri_node_backend.Slashing.Recovery.{purge_spoils, restart_reuses}
use veri_node_backend.Slashing.Payload.{restart_sends_blanks}
use veri_node_backend.Slashing.Window.{
  nulls, new_window, slot_at, set_slot, claim, claim_loop, Claimed, claim-Claimed, release,
  release-claim,
}

abbrev store : NonceStore
store = record { wal = none; water_mark = some 5; buffer = []; flush_threshold = 64 }

abbrev fresh : Sequencer
fresh = started (record { wal = none; water_mark = some 5; buffer = []; flush_threshold = 64 }) []

-- Two requests, answered in the other order.
abbrev script : List Event
script = begins 10 ∷ begins 20 ∷ completes 6 (success "h") ∷ completes 5 failure ∷ []

program : Unit {0}
unfolding append_file append_all add_entry flush append advance_water_mark get_water_mark
    parse_lines replay_unconfirmed one_per_line purge_confirmed reserve_nonce begin_request advance
    complete_request start step run begun nulls new_window slot_at set_slot claim claim_loop
program = tt

ran : (run script fresh).water_mark ≡ 6
unfolding program
ran = refl

begun_in_order_example : (begun script fresh ≡ 5 ∷ 6 ∷ []) × ((run script fresh).head_pointer ≡ 7)
unfolding get_water_mark
begun_in_order_example = begun_in_order script fresh

restart_reuses_example :
    (begin_request 40
      (started (run (completes 5 (success "h") ∷ []) (begin_request 10 fresh).1).store [])).0
    ≡ 5
unfolding program
restart_reuses_example =
    restart_reuses store fresh
      (started (run (completes 5 (success "h") ∷ []) (begin_request 10 fresh).1).store []) [] [] 10
      40 (completes 5 (success "h") ∷ []) refl (omega arith) refl

abbrev entry : ℕ → WalEntry
entry n = record { nonce = n; tx_hash = ""; timestamp = 10; status = pending }

abbrev logged : NonceStore
logged = record {
  wal = some (record { lines = (entry 3 ∷ []) ∷ (entry 70 ∷ []) ∷ []; terminated = true });
  water_mark = none;
  buffer = [];
  flush_threshold = 64;
}

purge_spoils_example :
    (s' : NonceStore) × (purge_confirmed 64 logged ≡ some s')
    × (start (flush (record s' { buffer = entry 71 ∷ [] })) ≡ none)
unfolding parse_lines
purge_spoils_example =
    purge_spoils logged 64
      (record { lines = (entry 3 ∷ []) ∷ (entry 70 ∷ []) ∷ []; terminated = true })
      (entry 3 ∷ entry 70 ∷ []) (entry 70) [] (entry 71) [] refl refl refl

claim-Claimed_example : Claimed 2 0 (new_window 2) (claim (new_window 2))
unfolding new_window nulls
claim-Claimed_example = claim-Claimed (new_window 2)

-- Requests 3 and 70 wait in the log.
restart_sends_blanks_example : All {A = String} (λ p. p ≡ "") ("" ∷ "" ∷ [])
unfolding program
restart_sends_blanks_example =
    restart_sends_blanks (begins 10 ∷ []) (started logged [])
      (started (run (begins 10 ∷ []) (started logged [])).store (entry 3 ∷ entry 70 ∷ []))
      ("" ∷ "" ∷ []) (tt, (((λ _. refl), tt), (((λ _. refl), tt), tt))) refl

release-claim_example : slot_at (release 0 (claim (new_window 2)).1).slots 0 ≡ some none
unfolding program
release-claim_example = release-claim (new_window 2) 0 (omega arith) refl 0
