-- ===== src/EventLoop/Tests.antt =====
-- Loops with concrete requests.
use a_curl_library.EventLoop.Scenes.{
  keyed, NodesOf, Heap, State, fresh, plain, user, user-KeepsPool, user-KeepsRetry, empty_loop,
  with_loop,
}
use a_curl_library.Base.{
  ℕ, ◌+◌, ◌≤◌, ◌<◌, ◌≡◌, refl, true, ◌==◌, if◌then◌else◌, some, [], ◌∷◌, pos, arith, ◌↔◌,
}
use a_curl_library.External.Fixed.{fixed_double}
use a_curl_library.External.Slots.{slots, slots-IsTable}
use a_curl_library.External.Bag.{bag, bag-IsQueue}
use a_curl_library.Request.{Pointer}
use a_curl_library.Request.Setup.{setup_curl_handle}
use a_curl_library.Loop.{Node, Loop}
use a_curl_library.Resource.Blocking.{all_ready_list}
use a_curl_library.Resource.Teardown.{done, fault, destroy_all}
use a_curl_library.External.Queue.{count}
use a_curl_library.EventLoop.{on_loop}
use a_curl_library.EventLoop.Start.{request_ready, request_start}
use a_curl_library.EventLoop.Cancel.{cancel}
use a_curl_library.EventLoop.Pending.{process_cancelled, process_cancelled_and_pending}
use a_curl_library.EventLoop.Move.{move_to_queue}
use a_curl_library.EventLoop.Complete.{Message, complete_one}
use a_curl_library.EventLoop.Timer.{next_timer_expiry}
use a_curl_library.EventLoop.Shutdown.{loop_destroy}
use a_curl_library.EventLoop.Frame.{dead}
use a_curl_library.EventLoop.Outcome.{Started, request_start-Started}
use a_curl_library.EventLoop.Conserve.{owed}
use a_curl_library.EventLoop.Moves.{IsCounted}
use a_curl_library.EventLoop.Limited.{move_to_queue-keeps}
use a_curl_library.EventLoop.Answers.{complete_one-keeps}
use a_curl_library.EventLoop.Admission.{Admission}
use a_curl_library.EventLoop.Retaining.{occurs}
use a_curl_library.EventLoop.Cancelled.{Filed}
use a_curl_library.EventLoop.Rounds.{schedule_keeps}
use a_curl_library.EventLoop.Cancelling.{Linked, process_cancelled_ends, cancel_twice_faults}
use a_curl_library.EventLoop.Readiness.{IsReady, request_ready_iff, IsTimely, next_timer-IsTimely}
use a_curl_library.EventLoop.Destroyed.{loop_destroy-clears}

-- Request 5 waits, and request 6 is refreshed.
abbrev two_waiting : State
two_waiting = with_loop (record empty_loop {
  inactive_requests = (7, 5) ∷ [];
  num_inactive_requests = pos 1;
  refresh_requests = (7, 6) ∷ [];
  num_refresh_requests = pos 1;
})

two_waiting-IsCounted : IsCounted two_waiting.loop
unfolding empty_loop
two_waiting-IsCounted = record { queued = refl; inactive = refl; refresh = refl }

two_waiting-Once : (p : Pointer) → owed p two_waiting.loop ≤ 1
unfolding empty_loop fresh
two_waiting-Once p = ground arith

move_to_queue-keeps_example :
    (s' : State) × (move_to_queue user two_waiting ≡ some s')
    × IsCounted s'.loop
    × ((p : Pointer) → owed p s'.loop ≡ owed p two_waiting.loop)
move_to_queue-keeps_example =
    move_to_queue-keeps bag-IsQueue user two_waiting user-KeepsPool two_waiting-IsCounted
      two_waiting-Once

request_start-Started_example :
    Started 5 two_waiting.loop
      (request_start user 5 two_waiting).0.loop
      (request_start user 5 two_waiting).1
request_start-Started_example = request_start-Started user 5 two_waiting user-KeepsPool

-- Request 5 is among the transfers, and its answer is a failure.
abbrev transferring : State
transferring =
    with_loop (record empty_loop { queued_requests = (7, 5) ∷ []; num_queued_requests = pos 1 })

abbrev unavailable : Message
unavailable = record { request = 5; is_done = true; is_ok = true; http_code = 503 }

transferring-IsCounted : IsCounted transferring.loop
unfolding empty_loop
transferring-IsCounted = record { queued = refl; inactive = refl; refresh = refl }

transferring-Once : (p : Pointer) → owed p transferring.loop ≤ 1
unfolding empty_loop fresh
transferring-Once p = ground arith

complete_one-keeps_example :
    (s' : State) × (complete_one user unavailable transferring ≡ some s')
    × IsCounted s'.loop
    × ((p : Pointer) → owed p s'.loop ≡ owed p transferring.loop)
    × (true ≡ true
        → (count 5 s'.loop.queued_requests ≡ 0)
          × (count 5 s'.loop.rate_limited_requests
                + (count 5 s'.loop.inactive_requests
                    + (count 5 s'.loop.refresh_requests + dead 5 s'.loop))
              ≡ 1))
unfolding empty_loop fresh
complete_one-keeps_example =
    complete_one-keeps bag-IsQueue user unavailable 92 95 transferring user-KeepsPool
      user-KeepsRetry (omega arith) refl refl transferring-IsCounted transferring-Once

-- Request 5 depends on resource 1, which is not there.
abbrev dependent : State
dependent = with_loop (record empty_loop {
  requests = λ p. record plain { request = record plain.request { deps = 1 ∷ [] } };
})

-- Request 8 is pending, and request 5, which waits, is cancelled.
abbrev with_pending : State
with_pending =
    on_loop (λ l. record l { pending_requests = 8 ∷ []; cancelled_requests = some 5 }) two_waiting

with_pending-IsCounted : IsCounted with_pending.loop
unfolding empty_loop
with_pending-IsCounted = record { queued = refl; inactive = refl; refresh = refl }

with_pending-once :
    (p : Pointer) → owed p with_pending.loop + occurs p with_pending.loop.pending_requests ≤ 1
unfolding empty_loop fresh
with_pending-once p = ground arith

with_pending-Linked :
    Linked with_pending.loop.requests with_pending.loop.cancelled_requests (5 ∷ [])
unfolding empty_loop fresh
with_pending-Linked = (refl, refl)

with_pending-Filed : (p : Pointer) → 0 < occurs p (5 ∷ []) → Filed p with_pending.loop
unfolding empty_loop fresh
with_pending-Filed p h = ground (arith, h)

schedule_keeps_example :
    (s₁ : State) × (s₂ : State) × (process_cancelled_and_pending user 2 with_pending ≡ done s₁)
    × (move_to_queue user s₁ ≡ some s₂)
    × IsCounted s₂.loop
    × ((p : Pointer)
        → owed p s₂.loop ≤ owed p with_pending.loop + occurs p with_pending.loop.pending_requests)
schedule_keeps_example =
    schedule_keeps (slots-IsTable Node) bag-IsQueue user (5 ∷ []) with_pending user-KeepsPool
      with_pending-Linked (λ p. ground arith) with_pending-Filed with_pending-IsCounted
      with_pending-once

-- Requests 5 and 9 are cancelled.
abbrev two_cancelled : State
two_cancelled = with_loop (record empty_loop {
  requests = λ p. if p == 5 then record plain { next_cancelled = some 9 } else plain;
  cancelled_requests = some 5;
})

two_cancelled-Linked : Linked two_cancelled.loop.requests (some 5) (5 ∷ 9 ∷ [])
unfolding fresh
two_cancelled-Linked = (refl, (refl, refl))

two_cancelled-once : (p : Pointer) → dead p two_cancelled.loop + occurs p (5 ∷ 9 ∷ []) ≤ 1
unfolding empty_loop fresh
two_cancelled-once p = ground arith

process_cancelled_ends_example :
    (s' : State) × (process_cancelled user 3 (some 5) two_cancelled ≡ done s')
    × ((p : Pointer) → dead p s'.loop ≡ dead p two_cancelled.loop + occurs p (5 ∷ 9 ∷ []))
process_cancelled_ends_example =
    process_cancelled_ends user (5 ∷ 9 ∷ []) (some 5) two_cancelled two_cancelled-Linked
      two_cancelled-once

cancel_twice_faults_example :
    let once = cancel 5 two_waiting.loop in
    let twice = cancel 5 once.0 in
    (once.1 ≡ true)
    × (twice.1 ≡ true)
    × (process_cancelled user 4 twice.0.cancelled_requests (record two_waiting { loop = twice.0 })
        ≡ fault)
unfolding empty_loop fresh
cancel_twice_faults_example = cancel_twice_faults user 5 two_waiting 2 refl refl refl refl

-- The loop has a request in each of its places.
abbrev busy : Loop ℕ NodesOf Heap
busy = record two_waiting.loop { cancelled_requests = some 9; pending_requests = 8 ∷ [] }

busy-Linked : Linked busy.requests busy.cancelled_requests (9 ∷ [])
unfolding empty_loop fresh
busy-Linked = (refl, refl)

busy-once : (p : Pointer) → owed p busy + (occurs p (9 ∷ []) + occurs p busy.pending_requests) ≤ 1
unfolding empty_loop fresh
busy-once p = ground arith

loop_destroy-clears_example :
    (l' : Loop ℕ NodesOf Heap) × (loop_destroy 2 busy ≡ destroy_all l')
    × ((p : Pointer)
        → dead p l' ≡ owed p busy + (occurs p (9 ∷ []) + occurs p busy.pending_requests))
unfolding empty_loop
loop_destroy-clears_example =
    loop_destroy-clears bag-IsQueue (9 ∷ []) busy refl busy-Linked busy-once

request_ready_iff_example :
    (((request_ready 5 two_waiting).1 ≡ true) ↔ IsReady 5 0 two_waiting)
    × ((request_ready 5 two_waiting).0.loop ≡ two_waiting.loop)
unfolding empty_loop
request_ready_iff_example = request_ready_iff 5 0 two_waiting refl

next_timer-IsTimely_example : IsTimely 200 two_waiting (next_timer_expiry 200 two_waiting).1
next_timer-IsTimely_example = next_timer-IsTimely 200 two_waiting

-- Both requests start, and the map of the transfers has them.
both_start :
    (s' : State) × (move_to_queue user two_waiting ≡ some s')
    × (s'.loop.num_queued_requests ≡ pos 2)
unfolding move_to_queue empty_loop fresh all_ready_list setup_curl_handle
both_start = (_, refl, refl)
