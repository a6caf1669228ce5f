-- ===== src/Dlq/Examples.antt =====
-- The dead letter queue at concrete attempts.
use veri_node_backend.Prelude.{ℕ, suc, zero, String, ◌≡◌, refl, none, [], ◌∷◌, ◌+◌, map, length}
use veri_node_backend.Prelude.Int.{pos}
use veri_node_backend.Dict.{get, set, remove}
use veri_node_backend.Dlq.Table.{
  an_error, a_value, dead_letter, serialize_error, insert, get_entry, mark_retrying, mark_failed,
  update_entry, delete, list_entries, newest_first, insert_newest, purge_expired, depth,
}
use veri_node_backend.Dlq.Metrics.{
  new_metrics, observe_all, observe_retry_count, count_up, record_retry_outcome, at_most, sum,
  buckets, observe_all-counts,
}
use veri_node_backend.Dlq.Manager.{
  World, Reply, returned, threw, Queue, backoff, default_backoff_ms, process_loop, process,
  retry_loop, retry,
}
use veri_node_backend.Dlq.Runs.{Attempts, process-Attempts}
use veri_node_backend.Dlq.Retrying.{IsSettled, retry-IsSettled}

program : Unit {0}
unfolding get set remove serialize_error dead_letter insert get_entry update_entry mark_retrying
    mark_failed delete insert_newest newest_first list_entries purge_expired depth count_up
    observe_retry_count record_retry_outcome backoff process_loop process retry_loop retry
program = tt

-- The handler returns at the third attempt.
abbrev third : ℕ → Reply String
third zero = threw (an_error "" "boom" none)
third (suc zero) = threw (a_value "string" "again")
third (suc (suc n)) = returned "done"

abbrev world : World String
world = record {
  handler = third;
  others = λ n d. d;
  now = λ n. 1000 + n;
  new_id = "d1";
  insert_error = none;
  delete_error = λ n. none;
  mark_error = none;
  get_error = none;
  retrying_error = none;
}

abbrev empty : Queue
empty = record { letters = []; metrics = new_metrics }

abbrev one_letter : Queue
one_letter = record {
  letters = ("d0", dead_letter "report" "{}" (an_error "TypeError" "x" none) 3 500) ∷ [];
  metrics = new_metrics;
}

slept_twice :
    (process world default_backoff_ms "report" "{}" (pos 3) empty).slept ≡ 30000 ∷ 120000 ∷ []
unfolding program
slept_twice = refl

buried :
    (process world default_backoff_ms "report" "{}" (pos 1) empty).queue.letters
    ≡ ("d1", dead_letter "report" "{}" (a_value "string" "again") 1 1001) ∷ []
unfolding program
buried = refl

retry_removes : (retry world default_backoff_ms "d0" (pos 3) 900 one_letter).queue.letters ≡ []
unfolding program
retry_removes = refl

process-Attempts_example :
    Attempts world default_backoff_ms "report" "{}" 3 0 empty
      (process world default_backoff_ms "report" "{}" (pos 3) empty)
process-Attempts_example = process-Attempts world default_backoff_ms "report" "{}" 3 empty

retry-IsSettled_example :
    IsSettled world "d0" 1 900 one_letter
      (retry world default_backoff_ms "d0" (pos 1) 900 one_letter).outcome
      (retry world default_backoff_ms "d0" (pos 1) 900 one_letter).queue
retry-IsSettled_example = retry-IsSettled world default_backoff_ms "d0" 1 900 one_letter

observe_all-counts_example :
    ((observe_all (3 ∷ 0 ∷ 2 ∷ []) new_metrics).counts
      ≡ map (λ b. at_most b (3 ∷ 0 ∷ 2 ∷ [])) buckets)
    × ((observe_all (3 ∷ 0 ∷ 2 ∷ []) new_metrics).retry_sum ≡ sum (3 ∷ 0 ∷ 2 ∷ []))
    × ((observe_all (3 ∷ 0 ∷ 2 ∷ []) new_metrics).retry_total ≡ length {A = ℕ} (3 ∷ 0 ∷ 2 ∷ []))
observe_all-counts_example = observe_all-counts (3 ∷ 0 ∷ 2 ∷ [])
