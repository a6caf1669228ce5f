-- ===== src/Slashing/Payload.antt =====
-- What a restart sends to the chain again.
use veri_node_backend.Prelude.{
  keep-passes, subst, ℕ, ◌+◌, String, ◌≡◌, refl, sym, inl, inr, Bool, true, false, Option, none,
  some, List, [], ◌∷◌, ◌++◌, map, length, All, All-append, All-keep, if◌then◌else◌, ◌==◌, leb,
  Bool-cases, Option-cases,
}
use veri_node_backend.Slashing.Wal.{
  confirmed, failed, is_pending, WalEntry, Wal, NonceStore, add_entry, lines_of, terminated_of,
  append_file, append_all, flush, append, advance_water_mark, parse_lines, replay_unconfirmed,
  outlives, one_per_line, purge_confirmed,
}
use veri_node_backend.Slashing.Sequencer.{
  Sequencer, is_due, amend, purged, Reply, success, failure, reserve_nonce, begin_request, advance,
  complete_request, resubmitted, start, Event, begins, completes, resubmits, step, run,
}

abbrev pub IsBlank : WalEntry → Type 0
IsBlank e = is_pending e.status ≡ true → e.tx_hash ≡ ""

abbrev pub IsClean : NonceStore → Type 0
IsClean s = All IsBlank s.buffer × All (All IsBlank) (lines_of s.wal)

add_entry-All :
    (e : WalEntry) (ls : List (List WalEntry)) (b : Bool)
    → IsBlank e
    → All (All IsBlank) ls
    → All (All IsBlank) (add_entry e ls b)
unfolding add_entry
add_entry-All e [] b h k = ((h, tt), tt)
add_entry-All e (l ∷ []) true h (k, _) = (k, ((h, tt), tt))
add_entry-All e (l ∷ []) false h (k, _) = (All-append IsBlank l (e ∷ []) k (h, tt), tt)
add_entry-All e (l ∷ m ∷ ls) b h (k, ks) = (k, add_entry-All e (m ∷ ls) b h ks)

append_all-All :
    (es : List WalEntry) (wal : Option Wal)
    → All IsBlank es
    → All (All IsBlank) (lines_of wal)
    → All (All IsBlank) (lines_of (append_all es wal))
unfolding append_all append_file
append_all-All [] wal h k = k
append_all-All (e ∷ es) wal (h, hs) k =
    append_all-All es (append_file e wal) hs
      (add_entry-All e (lines_of wal) (terminated_of wal) h k)

flush-IsClean : (s : NonceStore) → IsClean s → IsClean (flush s)
unfolding flush
flush-IsClean s (h, k) = (tt, append_all-All s.buffer s.wal h k)

append-IsClean : (e : WalEntry) (s : NonceStore) → IsBlank e → IsClean s → IsClean (append e s)
unfolding append
append-IsClean e s b (h, k) =
    let h' = All-append IsBlank s.buffer (e ∷ []) h (b, tt) in
    elim (Bool-cases (leb s.flush_threshold (length (s.buffer ++ (e ∷ []))))) [
      | inl q ↦ rw q (flush-IsClean (record s { buffer = s.buffer ++ (e ∷ []) }) (h', k))
      | inr q ↦ rw q (h', k)
    ]

amend-All :
    (nonce : ℕ) (f : WalEntry → WalEntry) (l : List WalEntry)
    → ((e : WalEntry) → IsBlank (f e))
    → All IsBlank l
    → All IsBlank (map (λ (e : WalEntry). if e.nonce == nonce then f e else e) l)
amend-All nonce f [] g h = tt
amend-All nonce f (e ∷ l) g (h, hs) = (one (e.nonce == nonce) h, amend-All nonce f l g hs)
  where
    one : (b : Bool) → IsBlank e → IsBlank (if b then f e else e)
    one true h = g e
    one false h = h

no_parse : {es : List WalEntry} → none ≡ some es → ⊥
no_parse e = cc

parsed_same : {es fs : List WalEntry} → some es ≡ some fs → es ≡ fs
parsed_same e = cc

parse_lines-All :
    (ls : List (List WalEntry)) (es : List WalEntry)
    → parse_lines ls ≡ some es
    → All (All IsBlank) ls
    → All IsBlank es
unfolding parse_lines
parse_lines-All [] es h k = rw (sym (parsed_same h)) tt
parse_lines-All ([] ∷ ls) es h k = absurd (no_parse h)
parse_lines-All ((e ∷ d ∷ l) ∷ ls) es h k = absurd (no_parse h)
parse_lines-All ((e ∷ []) ∷ ls) es h ((k, _), ks) = elim (Option-cases (parse_lines ls)) [
  | inl n ↦ absurd (no_parse (rw (n, parse_lines) at h))
  | inr (fs, q) ↦
      subst (All IsBlank) (parsed_same (rw (q, parse_lines) at h)) (k, parse_lines-All ls fs q ks)
]

one_per_line-All : (es : List WalEntry) → All IsBlank es → All (All IsBlank) (one_per_line es)
unfolding one_per_line
one_per_line-All [] h = tt
one_per_line-All (e ∷ es) (h, hs) = ((h, tt), one_per_line-All es hs)

purge-IsClean :
    (up_to : ℕ) (s : NonceStore) → IsClean s → IsClean (purged s (purge_confirmed up_to s)).1
unfolding purge_confirmed
purge-IsClean up_to s (h, k) = elim (Option-cases s.wal) [
  | inl n ↦ rw (n, purge_confirmed) (h, k)
  | inr (wal, q) ↦ elim (Option-cases (parse_lines wal.lines)) [
    | inl n ↦ rw (q, purge_confirmed) (rw (n, purge_confirmed) (h, (rw q at k)))
    | inr (es, p) ↦
        rw (q, purge_confirmed)
          (rw (p, purge_confirmed)
            (
              h,
              one_per_line-All _ (
                  All-keep IsBlank (outlives up_to) es
                    (parse_lines-All wal.lines es p (rw q at k))),
            ))
  ]
]

reserve-IsClean : (s : Sequencer) → IsClean s.store → IsClean (reserve_nonce s).1.store
unfolding reserve_nonce
reserve-IsClean s h = elim (Bool-cases (is_due (s.wal_flush_counter + 1))) [
  | inl e ↦ rw e (flush-IsClean s.store h)
  | inr e ↦ rw e h
]

begin-IsClean : (now : ℕ) (s : Sequencer) → IsClean s.store → IsClean (begin_request now s).1.store
unfolding begin_request
begin-IsClean now s h = append-IsClean _ (reserve_nonce s).1.store (λ _. refl) (reserve-IsClean s h)

advance-IsClean : (s : Sequencer) → IsClean s.store → IsClean (advance s).1.store
unfolding advance advance_water_mark
advance-IsClean s h = elim (Bool-cases (is_due s.wal_flush_counter)) [
  | inl e ↦
      simp e (purge-IsClean (s.water_mark + 1) (advance_water_mark (s.water_mark + 1) s.store) h)
  | inr e ↦ simp e h
]

amend-IsClean :
    (nonce : ℕ) (f : WalEntry → WalEntry) (s : NonceStore)
    → ((e : WalEntry) → IsBlank (f e))
    → IsClean s
    → IsClean (amend nonce f s)
amend-IsClean nonce f s g (h, k) = (amend-All nonce f s.buffer g h, k)

complete-IsClean :
    (nonce : ℕ) (reply : Reply) (s : Sequencer)
    → IsClean s.store
    → IsClean (complete_request nonce reply s).1.store
unfolding complete_request
complete-IsClean nonce (success hash) s h = advance-IsClean _ (
    amend-IsClean nonce (λ e. record e { tx_hash = hash; status = confirmed }) s.store
      (λ e p. absurd cc) h)
complete-IsClean nonce failure s h =
    amend-IsClean nonce (λ e. record e { status = failed }) s.store (λ e p. absurd cc) h

resubmitted-store : (reply : Reply) (s : Sequencer) → (resubmitted reply s).store ≡ s.store
unfolding resubmitted
resubmitted-store (success hash) s = refl
resubmitted-store failure s = refl

run-IsClean : (es : List Event) (s : Sequencer) → IsClean s.store → IsClean (run es s).store
unfolding run step
run-IsClean [] s h = h
run-IsClean (begins now ∷ es) s h = run-IsClean es (step (begins now) s) (begin-IsClean now s h)
run-IsClean (completes nonce reply ∷ es) s h =
    run-IsClean es (step (completes nonce reply) s) (complete-IsClean nonce reply s h)
run-IsClean (resubmits reply ∷ es) s h =
    run-IsClean es (step (resubmits reply) s) (subst IsClean (sym (resubmitted-store reply s)) h)

hashes_blank :
    (es : List WalEntry)
    → All IsBlank es
    → All (λ (e : WalEntry). is_pending e.status ≡ true) es
    → All (λ p. p ≡ "") (map (λ (e : WalEntry). e.tx_hash) es)
hashes_blank [] h k = tt
hashes_blank (e ∷ es) (h, hs) (k, ks) = (h k, hashes_blank es hs ks)

no_restart : {y : Sequencer × List String} → none ≡ some y → ⊥
no_restart e = cc

same_payloads : {x y : Sequencer × List String} → some x ≡ some y → x.1 ≡ y.1
same_payloads e = cc

-- Whatever requests and replies came before, what a restart sends to the chain again, for each
-- request that waits in the log, is the empty string: no slashing is submitted by it.
pub restart_sends_blanks :
    (es : List Event) (s s' : Sequencer) (payloads : List String)
    → IsClean s.store
    → start (run es s).store ≡ some (s', payloads)
    → All (λ p. p ≡ "") payloads
unfolding start replay_unconfirmed
restart_sends_blanks es s s' payloads clean h =
    let (_, ks) = run-IsClean es s clean in
    let store = (run es s).store in
    elim (Option-cases (parse_lines (lines_of store.wal))) [
      | inl n ↦ absurd (no_restart (rw (n, start, replay_unconfirmed) at h))
      | inr (fs, q) ↦
          subst (All (λ p. p ≡ "")) (same_payloads (rw (q, start, replay_unconfirmed) at h))
            (hashes_blank _ (All-keep IsBlank _ fs (parse_lines-All _ fs q ks)) (keep-passes _ fs))
    ]
