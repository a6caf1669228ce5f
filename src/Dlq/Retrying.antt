-- ===== src/Dlq/Retrying.antt =====
-- What `retry` of src/queue/dead_letter_queue.ts leaves of the entry, and the retry histogram.
use veri_node_backend.Prelude.{
  ℕ, zero, suc, String, eq_refl, ◌≡◌, refl, sym, subst, ◌∙◌, ◌⊎◌, inl, inr, none, some, List, ◌+◌,
  ◌≤◌, Option, Option-cases, same_some, none-some, arith,
}
use veri_node_backend.Prelude.Int.{pos}
use veri_node_backend.Dict.{get, get-set, get-remove}
use veri_node_backend.Dlq.Table.{
  Thrown, DeadLetter, DeadLetters, failed, serialize_error, delete, mark_retrying, mark_failed,
  update_entry, get_entry,
}
use veri_node_backend.Dlq.Manager.{
  World, Reply, returned, threw, Outcome, resolved, rejected, nothing_tried, not_found, Queue, seen,
  retried, settle_failure, retry_loop, retry_marked, retry_found, retry_read, retry,
}

-- The entry has failed with this error after this many retries.
pub record IsFailed (e : Thrown) (n : ℕ) (x : DeadLetter) : Type 0 where
  pub status : x.status ≡ failed
  pub error : x.error ≡ serialize_error e
  pub retries : x.retry_count ≡ n

-- What attempt `n` threw: the handler's error, or that of the DELETE after the handler returned.
abbrev pub IsThrown : {R : Type 0} → World R → ℕ → Thrown → Type 0
IsThrown {R} w n e =
    (w.handler n ≡ threw e) ⊎ ((a : R) × (w.handler n ≡ returned a) × (w.delete_error n ≡ some e))

-- Attempt `n` returned, and its DELETE did not throw.
abbrev pub IsReturned : {R : Type 0} → World R → ℕ → R → Type 0
IsReturned w n a = (w.handler n ≡ returned a) × (w.delete_error n ≡ none)

-- How the attempts end, the last of which has the number `limit`.
abbrev IsEnded : {R : Type 0} → World R → String → ℕ → Outcome R → Queue → Type 0
IsEnded w id limit (resolved a) p =
    (get p.letters id ≡ none) × ((n : ℕ) × (n ≤ limit) × IsReturned w n a)
IsEnded w id limit (rejected e) p =
    (IsThrown w limit e × ((x : DeadLetter) → get p.letters id ≡ some x → IsFailed e limit x))
    ⊎ ((x : Thrown) × IsThrown w limit x × (w.mark_error ≡ some e))
IsEnded w id limit nothing_tried p = ⊥
IsEnded w id limit not_found p = ⊥

-- How a call with this limit on the queue `q` ends.
abbrev pub IsSettled : {R : Type 0} → World R → String → ℕ → ℕ → Queue → Outcome R → Queue → Type 0
IsSettled w id limit at q (resolved a) p = IsEnded w id limit (resolved a) p
IsSettled w id limit at q (rejected e) p =
    (((w.get_error ≡ some e) ⊎ (w.retrying_error ≡ some e)) × (p ≡ q))
    ⊎ IsEnded w id limit (rejected e) p
IsSettled w id limit at q nothing_tried p = ⊥
IsSettled w id limit at q not_found p = (get_entry id at q.letters ≡ none) × (p ≡ q)

mark_failed-IsFailed :
    (id : String) (e : Thrown) (n now : ℕ) (d : DeadLetters) (x : DeadLetter)
    → get (mark_failed id e n now d) id ≡ some x
    → IsFailed e n x
unfolding mark_failed update_entry
mark_failed-IsFailed id e n now d x h = elim (Option-cases (get d id)) [
  | inl f ↦ absurd (none-some (sym f ∙ (rw f at h)))
  | inr (y, f) ↦
      let k = rw (f, get-set, eq_refl id) at h in
      subst (IsFailed e n) (same_some k) (record { status = refl; error = refl; retries = refl })
]

plus_zero : (n : ℕ) → n ≡ n + 0
plus_zero n = omega arith

zero_plus : (n : ℕ) → 0 + n ≡ n
zero_plus n = omega arith

plus_suc : (n m : ℕ) → suc n + m ≡ n + suc m
plus_suc n m = omega arith

module _ {R : Type 0} (w : World R) (backoff_ms : List ℕ) (id : String) where
  abbrev Tried : ℕ → Reply R → Type 0
  Tried n (returned a) = IsReturned w n a
  Tried n (threw e) = IsThrown w n e

  retried-Tried : (n : ℕ) → Tried n (retried w backoff_ms n (w.handler n) (w.delete_error n))
  retried-Tried n = by_case (w.handler n) (w.delete_error n) refl refl
    where
      by_case :
          (r : Reply R) (f : Option Thrown)
          → w.handler n ≡ r
          → w.delete_error n ≡ f
          → Tried n (retried w backoff_ms n r f)
      by_case (threw e) f h k = inl h
      by_case (returned a) none h k = (h, k)
      by_case (returned a) (some e) h k = inr (a, h, k)

  Reply-cases : (x : Reply R) → ((a : R) × (x ≡ returned a)) ⊎ ((e : Thrown) × (x ≡ threw e))
  Reply-cases (returned a) = inl (a, refl)
  Reply-cases (threw e) = inr (e, refl)

  deleted : (d : DeadLetters) → get (delete id d).1 id ≡ none
  unfolding delete
  deleted d = get-remove d id id ∙ rw (eq_refl id) refl

  failed_end :
      (n : ℕ) (x : Thrown) (d : DeadLetters) (q : Queue) (o : Option Thrown)
      → w.mark_error ≡ o
      → IsThrown w n x
      → let ran = settle_failure w backoff_ms id x n o (record q { letters = d }) in
        IsEnded w id (n + 0) ran.outcome ran.queue
  failed_end n x d q none g t = inl (
    subst (λ m. IsThrown w m x) (plus_zero n) t,
    λ y h. subst (λ m. IsFailed x m y) (plus_zero n) (mark_failed-IsFailed id x n (w.now n) d y h),
  )
  failed_end n x d q (some f) g t = inr (x, subst (λ m. IsThrown w m x) (plus_zero n) t, g)

  retry_loop-IsEnded :
      (left n : ℕ) (q : Queue)
      → IsEnded w id
          (n + left)
          (retry_loop w backoff_ms id left n q).outcome
          (retry_loop w backoff_ms id left n q).queue
  unfolding retry_loop
  retry_loop-IsEnded zero n q =
      elim (Reply-cases (retried w backoff_ms n (w.handler n) (w.delete_error n))) [
        | inl (a, e) ↦
            let t = subst (Tried n) e (retried-Tried n) in
            rw (e, retry_loop) (deleted (w.others n q.letters), (n, omega arith, t))
        | inr (x, e) ↦
            rw (e, retry_loop)
              (failed_end n x (w.others n q.letters) q w.mark_error refl
                (subst (Tried n) e (retried-Tried n)))
      ]
  retry_loop-IsEnded (suc left) n q =
      elim (Reply-cases (retried w backoff_ms n (w.handler n) (w.delete_error n))) [
        | inl (a, e) ↦
            let t = subst (Tried n) e (retried-Tried n) in
            rw (e, retry_loop) (deleted (w.others n q.letters), (n, omega arith, t))
        | inr (x, e) ↦
            let rest = retry_loop w backoff_ms id left (suc n) (seen w backoff_ms n q) in
            rw (e, retry_loop)
              (subst (λ m. IsEnded w id m rest.outcome rest.queue) (plus_suc n left)
                (retry_loop-IsEnded left (suc n) (seen w backoff_ms n q)))
      ]

  settle :
      (limit at : ℕ) (q : Queue) (o : Outcome R) (p : Queue)
      → IsEnded w id limit o p
      → IsSettled w id limit at q o p
  settle limit at q (resolved a) p h = h
  settle limit at q (rejected e) p h = inr h
  settle limit at q nothing_tried p h = h
  settle limit at q not_found p h = absurd h

  module _ (max_retries at : ℕ) (q : Queue) where
    marked_end :
        (o : Option Thrown)
        → w.retrying_error ≡ o
        → let ran = retry_marked w backoff_ms id o (pos max_retries) at q in
          IsSettled w id max_retries at q ran.outcome ran.queue
    marked_end (some f) g = inl (inr g, refl)
    marked_end none g =
        let start = record q { letters = mark_retrying id at q.letters } in
        let ran = retry_loop w backoff_ms id max_retries 0 start in
        settle max_retries at q ran.outcome ran.queue (
          subst (λ m. IsEnded w id m ran.outcome ran.queue) (zero_plus max_retries)
            (retry_loop-IsEnded max_retries 0 start))

    found_end :
        (o : Option DeadLetter)
        → get_entry id at q.letters ≡ o
        → let ran = retry_found w backoff_ms id o (pos max_retries) at q in
          IsSettled w id max_retries at q ran.outcome ran.queue
    found_end none g = (g, refl)
    found_end (some x) g = marked_end w.retrying_error refl

    read_end :
        (o : Option Thrown)
        → w.get_error ≡ o
        → let ran = retry_read w backoff_ms id o (pos max_retries) at q in
          IsSettled w id max_retries at q ran.outcome ran.queue
    read_end (some f) g = inl (inl g, refl)
    read_end none g = found_end (get_entry id at q.letters) refl

-- Where the limit is not negative: when `retry` has returned, some attempt up to the limit
-- returned the answer, its DELETE did not throw, and the entry is not in the table. When it has
-- thrown, this was the error of the read of the entry or of `markRetrying`, and nothing has
-- changed; or the error of the last attempt, the handler's or that of the DELETE, and an entry
-- that is still there is marked failed, with that error and the limit as its count of retries; or,
-- the last attempt having failed, the error of `markFailed`. When there was no unexpired entry,
-- nothing has changed. No call ends otherwise.
pub retry-IsSettled :
    {R : Type 0} (w : World R) (backoff_ms : List ℕ) (id : String) (max_retries at : ℕ) (q : Queue)
    → IsSettled w id max_retries at q
        (retry w backoff_ms id (pos max_retries) at q).outcome
        (retry w backoff_ms id (pos max_retries) at q).queue
unfolding retry
retry-IsSettled w backoff_ms id max_retries at q =
    read_end w backoff_ms id max_retries at q w.get_error refl
