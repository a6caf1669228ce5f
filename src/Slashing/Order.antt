-- ===== src/Slashing/Order.antt =====
-- The nonces that the sequencer gives out, in whatever order the replies come.
use veri_node_backend.Prelude.{
  ℕ, zero, suc, ◌+◌, ◌≤◌, ◌≡◌, refl, ap, ◌∙◌, inl, inr, true, List, [], ◌∷◌, length, arith, ◌==◌,
  Bool-cases,
}
use veri_node_backend.Flags.Registry.{holds}
use veri_node_backend.Slashing.Sequencer.{
  Sequencer, is_due, Reply, success, failure, reserve_nonce, begin_request, advance, without,
  complete_request, resubmitted, Event, begins, completes, resubmits, step, run,
}

-- The nonces of the requests of a run, in order.
unfoldable pub begun : List Event → Sequencer → List ℕ
unfolding step
begun [] s = []
begun (begins now ∷ es) s = (begin_request now s).0 ∷ begun es (step (begins now) s)
begun (completes nonce reply ∷ es) s = begun es (step (completes nonce reply) s)
begun (resubmits reply ∷ es) s = begun es (step (resubmits reply) s)

abbrev pub count_begins : List Event → ℕ
count_begins [] = 0
count_begins (begins now ∷ es) = suc (count_begins es)
count_begins (completes nonce reply ∷ es) = count_begins es
count_begins (resubmits reply ∷ es) = count_begins es

abbrev pub from : ℕ → ℕ → List ℕ
from n zero = []
from n (suc k) = n ∷ from (n + 1) k

pub advance_outcome :
    (s : Sequencer)
    → ((advance s).1.head_pointer ≡ s.head_pointer)
      × ((advance s).1.water_mark ≡ s.water_mark + 1)
      × ((advance s).1.in_flight ≡ s.in_flight)
      × ((advance s).1.pending_count ≡ s.pending_count)
      × ((advance s).1.wal_flush_counter ≡ s.wal_flush_counter)
unfolding advance
advance_outcome s = elim (Bool-cases (is_due s.wal_flush_counter)) [
  | inl e ↦ simp e (refl, refl, refl, refl, refl)
  | inr e ↦ simp e (refl, refl, refl, refl, refl)
]

complete-head :
    (nonce : ℕ) (reply : Reply) (s : Sequencer)
    → (complete_request nonce reply s).1.head_pointer ≡ s.head_pointer
unfolding complete_request
complete-head nonce (success hash) s = (advance_outcome _).0
complete-head nonce failure s = refl

resubmitted-head :
    (reply : Reply) (s : Sequencer) → (resubmitted reply s).head_pointer ≡ s.head_pointer
unfolding resubmitted
resubmitted-head (success hash) s = refl
resubmitted-head failure s = refl

-- However requests and replies interleave, the nonces given out are those from the head on, each
-- once and in the order of the requests, and the head moves by their number.
pub begun_in_order :
    (es : List Event) (s : Sequencer)
    → (begun es s ≡ from s.head_pointer (count_begins es))
      × ((run es s).head_pointer ≡ s.head_pointer + count_begins es)
unfolding begun run step begin_request reserve_nonce
begun_in_order [] s = (refl, omega arith)
begun_in_order (begins now ∷ es) s =
    let (a, b) = begun_in_order es (step (begins now) s) in
    (ap (λ l. s.head_pointer ∷ l) a, b ∙ omega arith)
begun_in_order (completes nonce reply ∷ es) s =
    let (a, b) = begun_in_order es (step (completes nonce reply) s) in
    let h = complete-head nonce reply s in
    (a ∙ ap (λ n. from n (count_begins es)) h, b ∙ ap (λ n. n + count_begins es) h)
begun_in_order (resubmits reply ∷ es) s =
    let (a, b) = begun_in_order es (step (resubmits reply) s) in
    let h = resubmitted-head reply s in
    (a ∙ ap (λ n. from n (count_begins es)) h, b ∙ ap (λ n. n + count_begins es) h)

-- A reply comes to a request that waits for it.
abbrev pub Possible : List Event → Sequencer → Type 0
Possible [] s = Unit
Possible (begins now ∷ es) s = Possible es (step (begins now) s)
Possible (completes nonce reply ∷ es) s =
    (holds nonce s.in_flight ≡ true) × Possible es (step (completes nonce reply) s)
Possible (resubmits reply ∷ es) s = Possible es (step (resubmits reply) s)

length-without : (n : ℕ) (l : List ℕ) → holds n l ≡ true → length (without n l) + 1 ≡ length l
length-without n [] h = cc
length-without n (m ∷ l) h = elim (Bool-cases (m == n)) [
  | inl e ↦ rw e (omega arith)
  | inr e ↦ rw e (omega (arith, length-without n l (rw e at h)))
]

-- The water mark and the requests that wait do not pass the head.
abbrev pub IsBehind : Sequencer → Type 0
IsBehind s = s.water_mark + length s.in_flight ≤ s.head_pointer

advance-IsBehind :
    (s : Sequencer)
    → s.water_mark + 1 + length s.in_flight ≤ s.head_pointer
    → IsBehind (advance s).1
advance-IsBehind s h =
    let (a, b, c, _, _) = advance_outcome s in
    let h' : s.water_mark + 1 + length s.in_flight ≤ (advance s).1.head_pointer = rw a h in
    let h'' : s.water_mark + 1 + length (advance s).1.in_flight ≤ (advance s).1.head_pointer =
      rw c h' in
    rw b h''

complete-IsBehind :
    (nonce : ℕ) (reply : Reply) (s : Sequencer)
    → holds nonce s.in_flight ≡ true
    → IsBehind s
    → IsBehind (complete_request nonce reply s).1
unfolding complete_request
complete-IsBehind nonce (success hash) s m h =
    advance-IsBehind _ (omega (arith, length-without nonce s.in_flight m, h))
complete-IsBehind nonce failure s m h = omega (arith, length-without nonce s.in_flight m, h)

resubmitted-IsBehind : (reply : Reply) (s : Sequencer) → IsBehind s → IsBehind (resubmitted reply s)
unfolding resubmitted
resubmitted-IsBehind (success hash) s h = h
resubmitted-IsBehind failure s h = h

-- However requests and replies interleave, the water mark and the number of waiting requests
-- together never pass the head: the mark never claims a nonce that was not given out.
pub run-IsBehind :
    (es : List Event) (s : Sequencer) → Possible es s → IsBehind s → IsBehind (run es s)
unfolding run step begin_request reserve_nonce
run-IsBehind [] s p h = h
run-IsBehind (begins now ∷ es) s p h = run-IsBehind es (step (begins now) s) p (omega (arith, h))
run-IsBehind (completes nonce reply ∷ es) s (m, p) h =
    run-IsBehind es (step (completes nonce reply) s) p (complete-IsBehind nonce reply s m h)
run-IsBehind (resubmits reply ∷ es) s p h =
    run-IsBehind es (step (resubmits reply) s) p (resubmitted-IsBehind reply s h)
