-- ===== src/Dlq/Metrics.antt =====
-- `DeadLetterQueueMetrics` of src/queue/dead_letter_queue.ts.
use veri_node_backend.Prelude.{
  map, ap, ◌∙◌, ℕ, suc, ◌≡◌, refl, Bool, true, false, List, [], ◌∷◌, length, keep, leb,
  if◌then◌else◌, ◌+◌, arith,
}

pub record Metrics : Type 0 where
  pub counts : List ℕ
  pub retry_sum : ℕ
  pub retry_total : ℕ
  pub retry_success_total : ℕ
  pub retry_failure_total : ℕ

abbrev pub buckets : List ℕ
buckets = 0 ∷ 1 ∷ 2 ∷ 3 ∷ []

abbrev pub new_metrics : Metrics
new_metrics = record {
  counts = 0 ∷ 0 ∷ 0 ∷ 0 ∷ [];
  retry_sum = 0;
  retry_total = 0;
  retry_success_total = 0;
  retry_failure_total = 0;
}

-- `counts[i]++` for each bucket that `count` falls into.
unfoldable pub count_up : ℕ → List ℕ → List ℕ → List ℕ
count_up count [] cs = []
count_up count (b ∷ bs) [] = []
count_up count (b ∷ bs) (c ∷ cs) = (if leb count b then suc c else c) ∷ count_up count bs cs

unfoldable pub observe_retry_count : ℕ → Metrics → Metrics
unfolding count_up
observe_retry_count count m = record m {
  retry_sum = m.retry_sum + count;
  retry_total = suc m.retry_total;
  counts = count_up count buckets m.counts;
}

unfoldable pub record_retry_outcome : Bool → Metrics → Metrics
record_retry_outcome true m = record m { retry_success_total = suc m.retry_success_total }
record_retry_outcome false m = record m { retry_failure_total = suc m.retry_failure_total }

abbrev pub observe_all : List ℕ → Metrics → Metrics
observe_all [] m = m
observe_all (n ∷ ns) m = observe_all ns (observe_retry_count n m)

-- How many of the observations are at most `b`.
abbrev pub at_most : ℕ → List ℕ → ℕ
at_most b ns = length (keep (λ n. leb n b) ns)

abbrev pub sum : List ℕ → ℕ
sum [] = 0
sum (n ∷ ns) = n + sum ns

-- The histogram that the observations of `ns` make, added to counts that are there.
abbrev pub counts_with : ℕ → ℕ → ℕ → ℕ → List ℕ → List ℕ
counts_with a b c d ns =
    (a + at_most 0 ns) ∷ (b + at_most 1 ns) ∷ (c + at_most 2 ns) ∷ (d + at_most 3 ns) ∷ []

counts_step :
    (a b n : ℕ) (ns : List ℕ)
    → (if leb n b then suc a else a) + at_most b ns ≡ a + at_most b (n ∷ ns)
counts_step a b n ns = ground arith

pad : (a b c d : ℕ) → ◌≡◌ {A = List ℕ} (a ∷ b ∷ c ∷ d ∷ []) (counts_with a b c d [])
pad a b c d = ground arith

counts_of :
    (ns : List ℕ) (m : Metrics) (a b c d : ℕ)
    → m.counts ≡ a ∷ b ∷ c ∷ d ∷ []
    → (observe_all ns m).counts ≡ counts_with a b c d ns
unfolding observe_retry_count count_up
counts_of [] m a b c d h = h ∙ pad a b c d
counts_of (n ∷ ns) m a b c d h =
    counts_of ns (observe_retry_count n m) (if leb n 0 then suc a else a)
      (if leb n 1 then suc b else b) (if leb n 2 then suc c else c) (if leb n 3 then suc d else d)
      (ap (count_up n buckets) h)
    ∙ simp (counts_step a 0 n ns, counts_step b 1 n ns, counts_step c 2 n ns, counts_step d 3 n ns)
        refl

totals_of :
    (ns : List ℕ) (m : Metrics)
    → ((observe_all ns m).retry_sum ≡ m.retry_sum + sum ns)
      × ((observe_all ns m).retry_total ≡ m.retry_total + length ns)
unfolding observe_retry_count
totals_of [] m = (omega arith, omega arith)
totals_of (n ∷ ns) m =
    let (s, t) = totals_of ns (observe_retry_count n m) in (omega (arith, s), omega (arith, t))

-- After any retry counts have been observed on new metrics, each bucket of the histogram counts those
-- observations that are at most its bound, the sum is theirs, and the total is their number.
pub observe_all-counts :
    (ns : List ℕ)
    → ((observe_all ns new_metrics).counts ≡ map (λ b. at_most b ns) buckets)
      × ((observe_all ns new_metrics).retry_sum ≡ sum ns)
      × ((observe_all ns new_metrics).retry_total ≡ length ns)
observe_all-counts ns =
    let (s, t) = totals_of ns new_metrics in
    (counts_of ns new_metrics 0 0 0 0 refl ∙ ground arith, omega (arith, s), omega (arith, t))
