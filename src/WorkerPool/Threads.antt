-- ===== src/WorkerPool/Threads.antt =====
-- The pool with its threads: the steps of `worker_pool_push`, of the workers and of
-- `worker_pool_destroy`, in any order. A worker is at its pop, sleeps on the condition of the queue,
-- runs an item, or has ended. A sleeping worker goes on by the signal of a push, which wakes one, by
-- the broadcast of the stop, or by itself, which POSIX allows. An item is freed with its pop here;
-- nothing reads it after its call. Every `pthread_create` succeeds, and the call of an item can return.
use a_curl_library.Base.{
  ◌⊎◌, ◌+◌, ◌-◌, min, ◌<◌, ℕ, suc, ◌≡◌, false, true, none, Bool, List, [], ◌∷◌, ◌++◌,
}
use a_curl_library.Request.{Pointer}
use a_curl_library.WorkerPool.{
  Work, Heap, WorkQueue, queue_init, push, served, waiting, ended, worker_round, stop_queue,
}

-- `worker_pool_s`, its threads by what they do, with what was pushed and what has been run
pub record Pool : Type 0 where
  pub queue : WorkQueue
  pub num_threads : ℕ
  pub idle : ℕ
  pub asleep : ℕ
  pub busy : List Work
  pub exited : ℕ
  pub accepted : List Work
  pub finished : List Work
  pub is_freed : Bool

-- `worker_pool_init`
abbrev pub pool_init : (num_threads : ℕ) → Heap → Pool
pool_init num_threads heap = record {
  queue = queue_init heap;
  num_threads = num_threads;
  idle = num_threads;
  asleep = 0;
  busy = [];
  exited = 0;
  accepted = [];
  finished = [];
  is_freed = false;
}

-- `stops` and `frees` are the two halves of `worker_pool_destroy`, which is called once, with the joins
-- between them. A pool can be pushed to until it is freed.
pub data Step : Pool → Pool → Type 0 where
  accepts :
      (p : Pointer) (w : Work) (s : Pool)
      → s.queue.heap p ≡ none
      → s.is_freed ≡ false
      → Step s (record s {
        queue = push p w s.queue;
        accepted = w ∷ s.accepted;
        idle = s.idle + min 1 s.asleep;
        asleep = s.asleep - 1;
      })
  takes :
      (w : Work) (n : ℕ) (s : Pool)
      → s.idle ≡ suc n
      → (worker_round s.queue).1 ≡ served w
      → Step s (record s { queue = (worker_round s.queue).0; idle = n; busy = w ∷ s.busy })
  sleeps :
      (n : ℕ) (s : Pool)
      → s.idle ≡ suc n
      → (worker_round s.queue).1 ≡ waiting
      → Step s (record s { queue = (worker_round s.queue).0; idle = n; asleep = suc s.asleep })
  wakes :
      (n : ℕ) (s : Pool) → s.asleep ≡ suc n → Step s (record s { idle = suc s.idle; asleep = n })
  finishes :
      (before : List Work) (w : Work) (after : List Work) (s : Pool)
      → s.busy ≡ before ++ w ∷ after
      → Step s (record s { busy = before ++ after; finished = w ∷ s.finished; idle = suc s.idle })
  leaves :
      (n : ℕ) (s : Pool)
      → s.idle ≡ suc n
      → (worker_round s.queue).1 ≡ ended
      → Step s (record s { queue = (worker_round s.queue).0; idle = n; exited = suc s.exited })
  stops :
      (s : Pool)
      → s.queue.stop ≡ false
      → Step s (record s { queue = stop_queue s.queue; idle = s.idle + s.asleep; asleep = 0 })
  frees :
      (s : Pool)
      → s.queue.stop ≡ true
      → s.exited ≡ s.num_threads
      → s.is_freed ≡ false
      → Step s (record s { is_freed = true })

-- the steps of `worker_pool_push`
unfoldable pub is_push : (s s' : Pool) → Step s s' → Bool
is_push _ _ (accepts p w s free live) = true
is_push _ _ (takes w n s idle x) = false
is_push _ _ (sleeps n s idle x) = false
is_push _ _ (wakes n s x) = false
is_push _ _ (finishes before w after s e) = false
is_push _ _ (leaves n s idle x) = false
is_push _ _ (stops s running) = false
is_push _ _ (frees s stopped all live) = false

-- the sum of a weight over the items, which tells items and their numbers
abbrev pub total : (Work → ℕ) → List Work → ℕ
total f [] = 0
total f (w ∷ ws) = f w + total f ws

abbrev pub one_each : Work → ℕ
one_each w = 1

pub data Reach : Pool → Pool → Type 0 where
  here : (s : Pool) → Reach s s
  then_step : (s s' s'' : Pool) → Reach s s' → Step s' s'' → Reach s s''

-- Every push comes before the stop, or while an item runs, which may be the one that pushes.
unfoldable pub IsOrderly : (s s' : Pool) → Reach s s' → Type 0
unfolding is_push
IsOrderly _ _ (here s) = Unit {0}
IsOrderly _ _ (then_step s s' s'' r x) =
    IsOrderly s s' r
    × (is_push s' s'' x ≡ true → (s'.queue.stop ≡ false) ⊎ (0 < total one_each s'.busy))
