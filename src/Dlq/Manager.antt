-- ===== src/Dlq/Manager.antt =====
-- `DeadLetterQueueManager` of src/queue/dead_letter_queue.ts. The handler, the clock, the errors of the
-- database and what the rest of the system does to the table meanwhile are a record of functions of
-- the attempt, counted from 0.
use veri_node_backend.Prelude.{ℕ, zero, suc, String, true, false, Option, none, some, List, [], ◌∷◌}
use veri_node_backend.Prelude.Int.{ℤ, pos, negsuc}
use veri_node_backend.Dlq.Table.{
  DeadLetter, DeadLetters, Thrown, dead_letter, insert, get_entry, mark_retrying, mark_failed,
  delete,
}
use veri_node_backend.Dlq.Metrics.{Metrics, observe_retry_count, record_retry_outcome}

pub data Reply (R : Type 0) : Type 0 where
  returned : R → Reply R
  threw : Thrown → Reply R

pub record Queue : Type 0 where
  pub letters : DeadLetters
  pub metrics : Metrics

pub record World (R : Type 0) : Type 0 where
  pub handler : ℕ → Reply R
  pub others : ℕ → DeadLetters → DeadLetters
  pub now : ℕ → ℕ
  pub new_id : String
  pub insert_error : Option Thrown
  pub delete_error : ℕ → Option Thrown
  pub mark_error : Option Thrown
  -- Of `repository.get` and of `markRetrying`.
  pub get_error : Option Thrown
  pub retrying_error : Option Thrown

-- How a call settles; `nothing_tried` is the MessageProcessingError after the loop.
pub data Outcome (R : Type 0) : Type 0 where
  resolved : R → Outcome R
  rejected : Thrown → Outcome R
  nothing_tried : Outcome R
  not_found : Outcome R

pub record Ran (R : Type 0) : Type 0 where
  pub outcome : Outcome R
  pub slept : List ℕ
  pub queue : Queue

abbrev pub default_backoff_ms : List ℕ
default_backoff_ms = 30000 ∷ 120000 ∷ 600000 ∷ []

abbrev pub default_max_retries : ℤ
default_max_retries = pos 3

-- `backoffMs[n] ?? backoffMs[backoffMs.length - 1] ?? 0`
unfoldable pub backoff : List ℕ → ℕ → ℕ
backoff [] n = 0
backoff (b ∷ []) n = b
backoff (b ∷ (c ∷ bs)) zero = b
backoff (b ∷ (c ∷ bs)) (suc n) = backoff (c ∷ bs) n

abbrev pub slept_before : {R : Type 0} → ℕ → Ran R → Ran R
slept_before ms r = record r { slept = ms ∷ r.slept }

module _ {R : Type 0} (w : World R) (backoff_ms : List ℕ) where
  abbrev pub seen : ℕ → Queue → Queue
  seen n q = record q { letters = w.others n q.letters }

  -- The last attempt of `process` has failed.
  abbrev pub bury : String → String → Thrown → ℕ → Option Thrown → Queue → Ran R
  bury message_type message e n none q = record {
    outcome = rejected e;
    slept = [];
    queue = record {
      letters = insert w.new_id (dead_letter message_type message e n (w.now n)) q.letters;
      metrics = observe_retry_count n q.metrics;
    };
  }
  bury message_type message e n (some f) q = record {
    outcome = rejected f;
    slept = [];
    queue = record q { metrics = observe_retry_count n q.metrics };
  }

  -- Attempt `n`, with `left` retries after it.
  unfoldable pub process_loop : String → String → ℕ → ℕ → Queue → Ran R
  unfolding backoff insert dead_letter
  process_loop message_type message zero n q = elim (w.handler n) [
    | returned r ↦ record { outcome = resolved r; slept = []; queue = seen n q }
    | threw e ↦ bury message_type message e n w.insert_error (seen n q)
  ]
  process_loop message_type message (suc left) n q =
      let rest = process_loop message_type message left (suc n) (seen n q) in
      elim (w.handler n) [
        | returned r ↦ record { outcome = resolved r; slept = []; queue = seen n q }
        | threw e ↦ slept_before (backoff backoff_ms n) rest
      ]

  unfoldable pub process : String → String → ℤ → Queue → Ran R
  unfolding process_loop
  process message_type message (pos max_retries) q =
      process_loop message_type message max_retries 0 q
  process message_type message (negsuc n) q = record {
    outcome = nothing_tried;
    slept = [];
    queue = q;
  }

  -- What an attempt of `retry` throws or returns: the handler's reply, or the error of the DELETE.
  abbrev pub retried : ℕ → Reply R → Option Thrown → Reply R
  retried n (threw e) f = threw e
  retried n (returned r) none = returned r
  retried n (returned r) (some f) = threw f

  abbrev pub settle_success : String → ℕ → R → Queue → Ran R
  settle_success id n r q = record {
    outcome = resolved r;
    slept = [];
    queue = record {
      letters = (delete id q.letters).1;
      metrics = record_retry_outcome true (observe_retry_count n q.metrics);
    };
  }

  -- The last attempt of `retry` has failed; an error of `markFailed` takes the place of its own.
  abbrev pub settle_failure : String → Thrown → ℕ → Option Thrown → Queue → Ran R
  settle_failure id e n none q = record {
    outcome = rejected e;
    slept = [];
    queue = record {
      letters = mark_failed id e n (w.now n) q.letters;
      metrics = record_retry_outcome false (observe_retry_count n q.metrics);
    };
  }
  settle_failure id e n (some f) q = record { outcome = rejected f; slept = []; queue = q }

  unfoldable pub retry_loop : String → ℕ → ℕ → Queue → Ran R
  unfolding backoff delete mark_failed observe_retry_count record_retry_outcome
  retry_loop id zero n q = elim (retried n (w.handler n) (w.delete_error n)) [
    | returned r ↦ settle_success id n r (seen n q)
    | threw e ↦ settle_failure id e n w.mark_error (seen n q)
  ]
  retry_loop id (suc left) n q =
      let rest = retry_loop id left (suc n) (seen n q) in
      elim (retried n (w.handler n) (w.delete_error n)) [
        | returned r ↦ settle_success id n r (seen n q)
        | threw e ↦ slept_before (backoff backoff_ms n) rest
      ]

  abbrev pub gave_up : Thrown → Queue → Ran R
  gave_up e q = record { outcome = rejected e; slept = []; queue = q }

  -- After `markRetrying`, which threw or did not.
  abbrev pub retry_marked : String → Option Thrown → ℤ → ℕ → Queue → Ran R
  retry_marked id (some e) max_retries at q = gave_up e q
  retry_marked id none (negsuc n) at q = record {
    outcome = nothing_tried;
    slept = [];
    queue = record q { letters = mark_retrying id at q.letters };
  }
  retry_marked id none (pos max_retries) at q =
      retry_loop id max_retries 0 (record q { letters = mark_retrying id at q.letters })

  abbrev pub retry_found : String → Option DeadLetter → ℤ → ℕ → Queue → Ran R
  retry_found id none max_retries at q = record { outcome = not_found; slept = []; queue = q }
  retry_found id (some e) max_retries at q = retry_marked id w.retrying_error max_retries at q

  -- After `repository.get`, which threw or did not.
  abbrev pub retry_read : String → Option Thrown → ℤ → ℕ → Queue → Ran R
  retry_read id (some e) max_retries at q = gave_up e q
  retry_read id none max_retries at q = retry_found id (get_entry id at q.letters) max_retries at q

  unfoldable pub retry : String → ℤ → ℕ → Queue → Ran R
  unfolding retry_loop mark_retrying get_entry
  retry id max_retries at q = retry_read id w.get_error max_retries at q
