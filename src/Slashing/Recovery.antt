-- ===== src/Slashing/Recovery.antt =====
-- What a restart finds.
use veri_node_backend.Prelude.{
  Option-cases, ℕ, ◌+◌, ◌<◌, String, ◌≡◌, refl, sym, ap, ◌∙◌, inl, inr, true, false, Option, none,
  some, List, [], ◌∷◌, ◌++◌, keep, length, arith, leb, Bool-cases,
}
use veri_node_backend.Slashing.Wal.{
  WalEntry, Wal, NonceStore, add_entry, lines_of, append_file, append_all, flush, append,
  get_water_mark, parse_lines, replay_unconfirmed, outlives, one_per_line, purge_confirmed,
}
use veri_node_backend.Slashing.Sequencer.{
  started, Sequencer, is_due, Reply, success, failure, reserve_nonce, begin_request, advance,
  complete_request, resubmitted, start, Event, begins, completes, resubmits, step, run,
}
use veri_node_backend.Slashing.Order.{count_begins, advance_outcome}

abbrev IsSpoiled : List (List WalEntry) → Type 0
IsSpoiled ls = parse_lines ls ≡ none

no_entries : {es : List WalEntry} → some es ≡ none → ⊥
no_entries e = cc

IsSpoiled-tail :
    (e : WalEntry) (ls : List (List WalEntry)) → IsSpoiled ls → IsSpoiled ((e ∷ []) ∷ ls)
unfolding parse_lines
IsSpoiled-tail e ls h = rw (h, parse_lines) refl

IsSpoiled-head :
    (l : List WalEntry) (ls ms : List (List WalEntry))
    → IsSpoiled (l ∷ ls)
    → (IsSpoiled ls → IsSpoiled ms)
    → IsSpoiled (l ∷ ms)
unfolding parse_lines
IsSpoiled-head [] ls ms h f = refl
IsSpoiled-head (e ∷ d ∷ l) ls ms h f = refl
IsSpoiled-head (e ∷ []) ls ms h f = go (parse_lines ls) refl h
  where
    go :
        (o : Option (List WalEntry))
        → parse_lines ls ≡ o
        → (elim o as (λ _. Option (List WalEntry)) [ none ↦ none | some es ↦ some (e ∷ es) ]) ≡ none
        → IsSpoiled ((e ∷ []) ∷ ms)
    go none q h = IsSpoiled-tail e ms (f q)
    go (some es) q h = absurd (no_entries h)

add_entry-IsSpoiled :
    (e : WalEntry) (ls : List (List WalEntry)) → IsSpoiled ls → IsSpoiled (add_entry e ls true)
unfolding add_entry parse_lines
add_entry-IsSpoiled e [] h = absurd (no_entries h)
add_entry-IsSpoiled e (l ∷ []) h =
    IsSpoiled-head l [] ((e ∷ []) ∷ []) h (λ k. absurd (no_entries k))
add_entry-IsSpoiled e (l ∷ m ∷ ls) h =
    IsSpoiled-head l (m ∷ ls) (add_entry e (m ∷ ls) true) h (add_entry-IsSpoiled e (m ∷ ls))

-- The entry goes on the last line, beside the one that is there.
joined-IsSpoiled :
    (e x : WalEntry) (xs : List WalEntry) → IsSpoiled (add_entry e (one_per_line (x ∷ xs)) false)
unfolding add_entry parse_lines one_per_line
joined-IsSpoiled e x [] = refl
joined-IsSpoiled e x (y ∷ ys) =
    IsSpoiled-tail x (add_entry e (one_per_line (y ∷ ys)) false) (joined-IsSpoiled e y ys)

append_all-IsSpoiled :
    (es : List WalEntry) (ls : List (List WalEntry))
    → IsSpoiled ls
    → IsSpoiled (lines_of (append_all es (some (record { lines = ls; terminated = true }))))
unfolding append_all append_file
append_all-IsSpoiled [] ls h = h
append_all-IsSpoiled (e ∷ es) ls h =
    append_all-IsSpoiled es (add_entry e ls true) (add_entry-IsSpoiled e ls h)

-- A purge that leaves an entry in the log, and the next flush of anything, make the log unreadable:
-- the sequencer no longer starts from it.
pub purge_spoils :
    (s : NonceStore) (up_to : ℕ) (wal : Wal) (entries : List WalEntry) (x : WalEntry)
    (xs : List WalEntry) (e : WalEntry) (es : List WalEntry)
    → s.wal ≡ some wal
    → parse_lines wal.lines ≡ some entries
    → keep (outlives up_to) entries ≡ x ∷ xs
    → (s' : NonceStore) × (purge_confirmed up_to s ≡ some s')
      × (start (flush (record s' { buffer = e ∷ es })) ≡ none)
unfolding purge_confirmed flush append_all append_file start replay_unconfirmed
purge_spoils s up_to wal entries x xs e es found parsed kept = (
  record s { wal = some (record { lines = one_per_line (x ∷ xs); terminated = false }) },
  rw (found, purge_confirmed) (rw (parsed, purge_confirmed) (rw kept refl)),
  rw (append_all-IsSpoiled es _ (joined-IsSpoiled e x xs), start, replay_unconfirmed) refl,
)

not_due : (k : ℕ) → 0 < k → k < 64 → is_due k ≡ false
not_due k h l = ground arith

flush_mark : (s : NonceStore) → (flush s).water_mark ≡ s.water_mark
unfolding flush
flush_mark s = refl

append_mark : (e : WalEntry) (s : NonceStore) → (append e s).water_mark ≡ s.water_mark
unfolding append
append_mark e s = elim (Bool-cases (leb s.flush_threshold (length (s.buffer ++ (e ∷ []))))) [
  | inl h ↦ rw h (flush_mark (record s { buffer = s.buffer ++ (e ∷ []) }))
  | inr h ↦ rw h refl
]

reserve_mark : (s : Sequencer) → (reserve_nonce s).1.store.water_mark ≡ s.store.water_mark
unfolding reserve_nonce
reserve_mark s = elim (Bool-cases (is_due (s.wal_flush_counter + 1))) [
  | inl h ↦ rw h (flush_mark s.store)
  | inr h ↦ rw h refl
]

begin_mark :
    (now : ℕ) (s : Sequencer) → (begin_request now s).1.store.water_mark ≡ s.store.water_mark
unfolding begin_request
begin_mark now s = append_mark _ _ ∙ reserve_mark s

advance_mark :
    (s : Sequencer)
    → is_due s.wal_flush_counter ≡ false
    → (advance s).1.store.water_mark ≡ s.store.water_mark
unfolding advance
advance_mark s h = simp h refl

complete_mark :
    (nonce : ℕ) (reply : Reply) (s : Sequencer)
    → is_due s.wal_flush_counter ≡ false
    → ((complete_request nonce reply s).1.store.water_mark ≡ s.store.water_mark)
      × ((complete_request nonce reply s).1.wal_flush_counter ≡ s.wal_flush_counter)
unfolding complete_request
complete_mark nonce (success hash) s h =
    let (_, _, _, _, c) = advance_outcome _ in (advance_mark _ h, c)
complete_mark nonce failure s h = (refl, refl)

resubmitted_mark :
    (reply : Reply) (s : Sequencer)
    → ((resubmitted reply s).store.water_mark ≡ s.store.water_mark)
      × ((resubmitted reply s).wal_flush_counter ≡ s.wal_flush_counter)
unfolding resubmitted
resubmitted_mark (success hash) s = (refl, refl)
resubmitted_mark failure s = (refl, refl)

run_mark :
    (es : List Event) (s : Sequencer)
    → 0 < s.wal_flush_counter
    → s.wal_flush_counter + count_begins es < 64
    → (run es s).store.water_mark ≡ s.store.water_mark
unfolding run step
run_mark [] s h k = refl
run_mark (begins now ∷ es) s h k =
    run_mark es (step (begins now) s) (omega arith) (omega (arith, k)) ∙ begin_mark now s
run_mark (completes nonce reply ∷ es) s h k =
    let (a, b) = complete_mark nonce reply s (not_due s.wal_flush_counter h (omega (arith, k))) in
    run_mark es (step (completes nonce reply) s) (rw b h) (rw b k) ∙ a
run_mark (resubmits reply ∷ es) s h k =
    let (a, b) = resubmitted_mark reply s in
    run_mark es (step (resubmits reply) s) (rw b h) (rw b k) ∙ a

begin_counter :
    (now : ℕ) (s : Sequencer) → (begin_request now s).1.wal_flush_counter ≡ s.wal_flush_counter + 1
unfolding begin_request reserve_nonce
begin_counter now s = refl

same_start : {x y : Sequencer × List String} → some x ≡ some y → x.0 ≡ y.0
same_start e = cc

no_start : {y : Sequencer × List String} → none ≡ some y → ⊥
no_start e = cc

start_head :
    (store : NonceStore) (s : Sequencer) (p : List String)
    → start store ≡ some (s, p)
    → (s.head_pointer ≡ get_water_mark store) × (s.wal_flush_counter ≡ 0) × (s.store ≡ store)
unfolding start
start_head store s p h = elim (Option-cases (replay_unconfirmed store)) [
  | inl n ↦ absurd (no_start (rw (n, start) at h))
  | inr (entries, e) ↦
      let q : started store entries ≡ s = same_start (rw (e, start) at h) in
      (
        sym (ap (λ (t : Sequencer). t.head_pointer) q),
        sym (ap (λ (t : Sequencer). t.wal_flush_counter) q),
        sym (ap (λ (t : Sequencer). t.store) q),
      )
]

-- After a start, and before the 64th request since, a restart forgets every nonce that was given
-- out: the first nonce after it is the first one before it again, whatever has been confirmed in
-- between.
pub restart_reuses :
    (store : NonceStore) (s s' : Sequencer) (p p' : List String) (now now' : ℕ) (es : List Event)
    → start store ≡ some (s, p)
    → count_begins es < 63
    → start (run es (begin_request now s).1).store ≡ some (s', p')
    → (begin_request now' s').0 ≡ (begin_request now s).0
unfolding begin_request reserve_nonce get_water_mark
restart_reuses store s s' p p' now now' es h k h' =
    let (a, b, c) = start_head store s p h in
    let (a', _, _) = start_head _ s' p' h' in
    let kept =
      run_mark es (begin_request now s).1 (omega arith) (omega (arith, b, k))
      ∙ begin_mark now s
      ∙ ap (λ (t : NonceStore). t.water_mark) c in
    a' ∙ ap (λ (m : Option ℕ). elim m as (λ _. ℕ) [ none ↦ 0 | some n ↦ n ]) kept ∙ sym a
