-- ===== src/WorkerPool/Tests.antt =====
-- A queue in an empty heap.
use a_curl_library.Base.{inl, inr, ℕ, ◌≡◌, refl, true, false, none, List, [], ◌∷◌, arith}
use a_curl_library.WorkerPool.{
  Work, Heap, WorkQueue, queue_init, push, worker_round, stop_queue, Command, pushes, stops, rounds,
  Answer, pushed, stopped, waiting, ended, served, command, answers,
}
use a_curl_library.WorkerPool.Fifo.{Pending, Stands, ideal_answers, IsAllocated, answers_refine}
use a_curl_library.WorkerPool.Threads.{
  Pool, pool_init, total, IsOrderly, accepts, takes, finishes, leaves, stops, frees, Step, Reach,
  here, then_step,
}
use a_curl_library.WorkerPool.Joins.{destroyed_runs_all}

abbrev empty_queue : WorkQueue
empty_queue = queue_init (λ p. none)

abbrev nothing : Pending
nothing = record { works = []; is_stopped = false }

-- Two pushes at different places, with a round before them and after the stop.
abbrev commands : List Command
commands = rounds ∷ pushes 1 (10, 11) ∷ pushes 2 (20, 21) ∷ rounds ∷ stops ∷ rounds ∷ rounds ∷ []

abbrev expected : List Answer
expected = waiting ∷ pushed ∷ pushed ∷ served (10, 11) ∷ stopped ∷ served (20, 21) ∷ ended ∷ []

commands-IsAllocated : IsAllocated commands empty_queue
unfolding IsAllocated command
commands-IsAllocated = (refl, (refl, tt))

empty-Stands : Stands empty_queue nothing
empty-Stands = record {
  entries = [];
  queue = record { chained = refl; distinct = tt; at_tail = refl };
  same_works = refl;
  same_stop = refl;
}

answers_value : answers commands empty_queue ≡ expected
unfolding answers
answers_value = refl

answers_refine_example : answers commands empty_queue ≡ ideal_answers commands nothing
answers_refine_example =
    answers_refine commands empty_queue nothing commands-IsAllocated empty-Stands

-- A pool of one worker that is pushed an item and is stopped while the item runs, which pushes
-- another one.
abbrev no_heap : Heap
no_heap p = none

abbrev first : Work
first = (10, 11)

abbrev second : Work
second = (20, 21)

abbrev pushed_one : Pool
pushed_one = record (pool_init 1 no_heap) {
  queue = push 1 first empty_queue;
  accepted = first ∷ [];
}

abbrev running_one : Pool
running_one = record pushed_one {
  queue = (worker_round pushed_one.queue).0;
  idle = 0;
  busy = first ∷ [];
}

abbrev stopped_one : Pool
stopped_one = record running_one { queue = stop_queue running_one.queue }

abbrev pushed_two : Pool
pushed_two = record stopped_one {
  queue = push 2 second stopped_one.queue;
  accepted = second ∷ first ∷ [];
}

abbrev run_one : Pool
run_one = record pushed_two { busy = []; finished = first ∷ []; idle = 1 }

abbrev running_two : Pool
running_two = record run_one {
  queue = (worker_round run_one.queue).0;
  idle = 0;
  busy = second ∷ [];
}

abbrev run_two : Pool
run_two = record running_two { busy = []; finished = second ∷ first ∷ []; idle = 1 }

abbrev left_two : Pool
left_two = record run_two { queue = (worker_round run_two.queue).0; idle = 0; exited = 1 }

abbrev freed_two : Pool
freed_two = record left_two { is_freed = true }

unfoldable stopped_one-Reach : Reach (pool_init 1 no_heap) stopped_one
unfolding push worker_round
stopped_one-Reach =
    then_step _ running_one _
      (then_step _ pushed_one _
        (then_step _ (pool_init 1 no_heap) _ (here _) (accepts 1 first _ refl refl))
        (takes first 0 _ refl refl))
      (stops _ refl)

unfoldable freed_two-Reach : Reach (pool_init 1 no_heap) freed_two
unfolding push worker_round stopped_one-Reach
freed_two-Reach =
    then_step _ left_two _
      (then_step _ run_two _
        (then_step _ running_two _
          (then_step _ run_one _
            (then_step _ pushed_two _
              (then_step _ stopped_one _ stopped_one-Reach (accepts 2 second _ refl refl))
              (finishes [] first [] _ refl))
            (takes second 0 _ refl refl))
          (finishes [] second [] _ refl))
        (leaves 0 _ refl refl))
      (frees _ refl refl refl)

freed_two-IsOrderly : IsOrderly (pool_init 1 no_heap) freed_two freed_two-Reach
unfolding IsOrderly freed_two-Reach
freed_two-IsOrderly = (
  (
    (
      (
        (((((tt, λ x. inl refl), λ x. cc x), λ x. cc x), λ x. inr (omega arith)), λ x. cc x),
        λ x. cc x,
      ),
      λ x. cc x,
    ),
    λ x. cc x,
  ),
  λ x. cc x,
)

destroyed_runs_all_example :
    ((f : Work → ℕ) → total f freed_two.finished ≡ total f freed_two.accepted)
    × ((s' : Pool) → ¬ Step freed_two s')
destroyed_runs_all_example =
    destroyed_runs_all 1 no_heap freed_two freed_two-Reach freed_two-IsOrderly (ground arith) refl
