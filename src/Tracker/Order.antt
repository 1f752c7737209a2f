-- ===== src/Tracker/Order.antt =====
-- The order of the queue is total and transitive, so the queue is sorted.
use dark_stream.Common.{
  ◌≡◌, ◌⊎◌, true, List, All, filter, All-filter, filter-All, arith, IsSorted, All-sort_by,
  sort_by-IsSorted, length, length-sort_by, length-filter, count,
}
use dark_stream.Models.{Job}
use dark_stream.Tracker.Lookup.{comes_before, is_pending, pending_queue}

pub comes_before_total : (a b : Job) → (comes_before a b ≡ true) ⊎ (comes_before b a ≡ true)
comes_before_total a b = ground arith

pub comes_before_trans :
    (a b c : Job) → comes_before a b ≡ true → comes_before b c ≡ true → comes_before a c ≡ true
comes_before_trans a b c p q = ground arith

pub pending_queue-IsSorted : (jobs : List Job) → IsSorted comes_before (pending_queue jobs)
unfolding pending_queue
pending_queue-IsSorted jobs =
    sort_by-IsSorted comes_before comes_before_total comes_before_trans (filter is_pending jobs)

pub pending_queue-All :
    (P : Job → Type 0) (jobs : List Job) → All P jobs → All P (pending_queue jobs)
unfolding pending_queue
pending_queue-All P jobs h = All-sort_by comes_before P _ (filter-All P is_pending jobs h)

pub pending_queue-is_pending :
    (jobs : List Job) → All (λ j. is_pending j ≡ true) (pending_queue jobs)
unfolding pending_queue
pending_queue-is_pending jobs = All-sort_by comes_before _ _ (All-filter is_pending jobs)

pub length-pending_queue : (jobs : List Job) → length (pending_queue jobs) ≡ count is_pending jobs
unfolding pending_queue
length-pending_queue jobs =
    omega
      (arith, length-sort_by comes_before (filter is_pending jobs), length-filter is_pending jobs)
