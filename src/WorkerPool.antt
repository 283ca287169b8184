-- ===== src/WorkerPool.antt =====
-- src/worker_pool.c: the linked queue of work items, and the rounds of a worker. The heap maps the
-- address of an item to the item; `none` is memory that is not allocated. The queue's mutex makes a
-- push, a pop and the stop one step each. A round of a worker is its pop, the call and the free;
-- rounds of several workers overlap in the last two, which do not touch the queue. Here a round is one
-- step; Threads parts the call from the pop. A wait on the condition is the answer `waiting`: it
-- changes nothing of the queue, and the round is tried again once the worker is woken, as Threads has it.
pub mod Linked
pub mod Fifo
pub mod Threads
pub mod Rounds
pub mod Sound
pub mod Joins
pub mod Stopping
mod Tests
use a_curl_library.Base.{
  ℕ, Bool, true, false, Option, none, some, List, [], ◌∷◌, ◌==◌, if◌then◌else◌,
}
use a_curl_library.Request.{Pointer}

-- the function and its argument
abbrev pub Work : Type 0
Work = Pointer × Pointer

-- `work_item_t`
pub record WorkItem : Type 0 where
  pub work : Work
  pub next : Option Pointer

abbrev pub Heap : Type 0
Heap = Pointer → Option WorkItem

-- `work_queue_t`, and the heap
pub record WorkQueue : Type 0 where
  pub heap : Heap
  pub head : Option Pointer
  pub tail : Option Pointer
  pub stop : Bool

abbrev pub set_item : Pointer → Option WorkItem → Heap → Heap
set_item p item heap = λ a. if a == p then item else heap a

abbrev pub with_next : Option Pointer → Option WorkItem → Option WorkItem
with_next next none = none
with_next next (some item) = some (record item { next = next })

-- `work_queue_init`
abbrev pub queue_init : Heap → WorkQueue
queue_init heap = record { heap = heap; head = none; tail = none; stop = false }

-- `worker_pool_push` behind the allocation: `q->tail->next = item` where there is a tail
abbrev pub link_item : Pointer → Option Pointer → WorkQueue → WorkQueue
link_item p none q = record q { head = some p; tail = some p }
link_item p (some t) q = record q {
  heap = set_item t (with_next (some p) (q.heap t)) q.heap;
  tail = some p;
}

-- `worker_pool_push`; `p` is what `aml_calloc` returns
unfoldable pub push : Pointer → Work → WorkQueue → WorkQueue
push p work q =
    link_item p q.tail
      (record q { heap = set_item p (some (record { work = work; next = none })) q.heap })

-- what a round of a worker came to; `fault` is a read of memory that is not allocated
pub data Answer : Type 0 where
  pushed stopped waiting ended fault : Answer
  served : Work → Answer

-- the pop of a head that is there
abbrev pub unlink_head : Option Pointer → WorkQueue → WorkQueue
unlink_head none q = record q { head = none; tail = none }
unlink_head (some p) q = record q { head = some p }

-- the call and the free of the popped item
abbrev pub serve : Pointer → Option WorkItem → WorkQueue → WorkQueue × Answer
serve p none q = (q, fault)
serve p (some item) q =
    let q' = unlink_head item.next q in
    (record q' { heap = set_item p none q'.heap }, served item.work)

-- one round of `worker_thread_main`, with `work_queue_pop`
unfoldable pub worker_round : WorkQueue → WorkQueue × Answer
worker_round q = elim q.head [
  | none ↦ (q, if q.stop then ended else waiting)
  | some p ↦ serve p (q.heap p) q
]

-- the critical section of `worker_pool_stop`
abbrev pub stop_queue : WorkQueue → WorkQueue
stop_queue q = record q { stop = true }

pub data Command : Type 0 where
  pushes : Pointer → Work → Command
  stops rounds : Command

unfoldable pub command : Command → WorkQueue → WorkQueue × Answer
unfolding push worker_round
command (pushes p work) q = (push p work q, pushed)
command stops q = (stop_queue q, stopped)
command rounds q = worker_round q

unfoldable pub answers : List Command → WorkQueue → List Answer
unfolding command
answers [] q = []
answers (c ∷ cs) q = let (q', a) = command c q in a ∷ answers cs q'
