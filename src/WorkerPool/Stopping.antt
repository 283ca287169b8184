-- ===== src/WorkerPool/Stopping.antt =====
-- worker_pool_stop: its joins return.
use a_curl_library.Base.{ℕ, ◌+◌, ◌*◌, ◌≤◌, ◌≡◌, Bool, true, false}
use a_curl_library.WorkerPool.Threads.{Pool, Step, is_push, total, one_each}

-- On every continuation without a further push the pool comes to be freed, and until then some such
-- step can be taken.
pub data Ends : Pool → Type 0 where
  freed : (s : Pool) → s.is_freed ≡ true → Ends s
  goes_on :
      (s s' : Pool) (x : Step s s')
      → is_push s s' x ≡ false
      → ((s'' : Pool) (y : Step s s'') → is_push s s'' y ≡ false → Ends s'')
      → Ends s

abbrev frees_left : Bool → ℕ
frees_left true = 0
frees_left false = 1

-- A bound on the steps that are left once the pool is stopped: three for an item that waits, two for
-- one that runs, one for a worker at its pop, and the free.
abbrev WithinSteps : ℕ → Pool → Type 0
WithinSteps m s =
    3 * total one_each s.accepted + (s.idle + frees_left s.is_freed)
    ≤ m + (3 * total one_each s.finished + total one_each s.busy)

-- A step that is no push.
abbrev OwnStep : Pool → Type 0
OwnStep s = (s' : Pool) × (x : Step s s') × (is_push s s' x ≡ false)
