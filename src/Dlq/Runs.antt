-- ===== src/Dlq/Runs.antt =====
-- The attempts of `process`, src/queue/dead_letter_queue.ts.
use veri_node_backend.Prelude.{
  inr, ◌⊎◌, inl, ℕ, zero, suc, String, ◌≡◌, refl, ap, Option, none, some, List, [], ◌∷◌, ◌≤◌, ◌+◌,
  arith,
}
use veri_node_backend.Prelude.Int.{pos}
use veri_node_backend.Dlq.Table.{Thrown, dead_letter, insert}
use veri_node_backend.Dlq.Metrics.{observe_retry_count}
use veri_node_backend.Dlq.Manager.{
  World, Reply, returned, threw, resolved, rejected, Ran, Queue, seen, bury, backoff, process_loop,
  process, slept_before,
}

module _ {R : Type 0} (w : World R) (backoff_ms : List ℕ) where
  -- What is left when `k` attempts from `n` on have passed.
  abbrev pub passed : ℕ → ℕ → Queue → Queue
  passed zero n q = q
  passed (suc k) n q = passed k (suc n) (seen w backoff_ms n q)

  abbrev pub waits : ℕ → ℕ → List ℕ
  waits zero n = []
  waits (suc k) n = backoff backoff_ms n ∷ waits k (suc n)

  -- `k` attempts from `n` on, each of which threw.
  abbrev pub Threw : ℕ → ℕ → Type 0
  Threw zero n = Unit
  Threw (suc k) n = ((e : Thrown) × (w.handler n ≡ threw e)) × Threw k (suc n)

  -- Either attempt `at`, the `k`-th from `n` on, is the first that returns, or none of them does and
  -- the message is buried after the last, or lost where the INSERT throws.
  pub data Attempts (message_type message : String) (left n : ℕ) (q : Queue) (r : Ran R)
      : Type 0 where
    returns :
        (k at : ℕ) (a : R)
        → k ≤ left
        → at ≡ n + k
        → Threw k n
        → w.handler at ≡ returned a
        → r ≡ record { outcome = resolved a; slept = waits k n; queue = passed (suc k) n q }
        → Attempts message_type message left n q r
    buries :
        (at : ℕ) (e : Thrown)
        → at ≡ n + left
        → Threw (suc left) n
        → w.handler at ≡ threw e
        → w.insert_error ≡ none
        → r ≡ record {
          outcome = rejected e;
          slept = waits left n;
          queue = record {
            letters =
                insert w.new_id
                  (dead_letter message_type message e at (w.now at))
                  (passed (suc left) n q).letters;
            metrics = observe_retry_count at (passed (suc left) n q).metrics;
          };
        }
        → Attempts message_type message left n q r
    loses :
        (at : ℕ) (f : Thrown)
        → at ≡ n + left
        → Threw (suc left) n
        → w.insert_error ≡ some f
        → r ≡ record {
          outcome = rejected f;
          slept = waits left n;
          queue = record (passed (suc left) n q) {
            metrics = observe_retry_count at (passed (suc left) n q).metrics;
          };
        }
        → Attempts message_type message left n q r

  Reply-cases : (x : Reply R) → ((a : R) × (x ≡ returned a)) ⊎ ((e : Thrown) × (x ≡ threw e))
  Reply-cases (returned a) = inl (a, refl)
  Reply-cases (threw e) = inr (e, refl)

  after_throw :
      (t m : String) (left n : ℕ) (q : Queue) (r : Ran R) (e : Thrown)
      → w.handler n ≡ threw e
      → Attempts t m left (suc n) (seen w backoff_ms n q) r
      → Attempts t m (suc left) n q (slept_before (backoff backoff_ms n) r)
  after_throw t m left n q r e h (returns k at a le p threw_all last eq) =
      returns (suc k) at a (omega (arith, le)) (omega (arith, p)) ((e, h), threw_all) last
        (ap (slept_before (backoff backoff_ms n)) eq)
  after_throw t m left n q r e h (buries at f p threw_all last calm eq) =
      buries at f (omega (arith, p)) ((e, h), threw_all) last calm
        (ap (slept_before (backoff backoff_ms n)) eq)
  after_throw t m left n q r e h (loses at f p threw_all broken eq) =
      loses at f (omega (arith, p)) ((e, h), threw_all) broken
        (ap (slept_before (backoff backoff_ms n)) eq)

  -- The last attempt.
  last_throw :
      (t m : String) (n : ℕ) (q : Queue) (e : Thrown) (o : Option Thrown)
      → w.handler n ≡ threw e
      → w.insert_error ≡ o
      → Attempts t m zero n q (bury w backoff_ms t m e n o (seen w backoff_ms n q))
  last_throw t m n q e none h calm = buries n e (omega arith) ((e, h), tt) h calm refl
  last_throw t m n q e (some f) h broken = loses n f (omega arith) ((e, h), tt) broken refl

  process_loop-Attempts :
      (message_type message : String) (left n : ℕ) (q : Queue)
      → Attempts message_type message left n q
          (process_loop w backoff_ms message_type message left n q)
  unfolding process_loop
  process_loop-Attempts t m zero n q = elim (Reply-cases (w.handler n)) [
    | inl (a, e) ↦ returns 0 n a (omega arith) (omega arith) tt e (rw (e, process_loop) refl)
    | inr (x, e) ↦ rw (e, process_loop) (last_throw t m n q x w.insert_error e refl)
  ]
  process_loop-Attempts t m (suc left) n q = elim (Reply-cases (w.handler n)) [
    | inl (a, e) ↦ returns 0 n a (omega arith) (omega arith) tt e (rw (e, process_loop) refl)
    | inr (x, e) ↦
        rw (e, process_loop)
          (after_throw t m left n q _ x e
            (process_loop-Attempts t m left (suc n) (seen w backoff_ms n q)))
  ]

-- With a limit of `max_retries`, `process` answers what the first attempt that returns does, among the
-- first `max_retries` and one more, and writes nothing itself; if all of these throw, it has slept the
-- backoffs between them, counts the retries, and inserts one failed entry with the last error, which it
-- rethrows; where that INSERT throws, it rethrows the error of the INSERT and there is no entry.
pub process-Attempts :
    {R : Type 0} (w : World R) (backoff_ms : List ℕ) (message_type message : String)
    (max_retries : ℕ) (q : Queue)
    → Attempts w backoff_ms message_type message max_retries 0 q
        (process w backoff_ms message_type message (pos max_retries) q)
unfolding process
process-Attempts w backoff_ms t m max_retries q =
    process_loop-Attempts w backoff_ms t m max_retries 0 q
