-- ===== src/EventLoop/Rounds.antt =====
-- The scheduling of one round of `curl_event_loop_run`.
use a_curl_library.Base.{◌<◌, ℕ, List, ◌+◌, ◌≤◌, ◌≡◌, ap, none, some, [], arith}
use a_curl_library.External.Double.{Double}
use a_curl_library.External.Table.{Table, IsTable}
use a_curl_library.External.Queue.{Queue, IsQueue}
use a_curl_library.RateManager.{RateLimit}
use a_curl_library.Request.{Text, Pointer}
use a_curl_library.Loop.{Node}
use a_curl_library.Resource.Teardown.{done}
use a_curl_library.EventLoop.{Sys, User, on_loop}
use a_curl_library.EventLoop.Pending.{
  process_cancelled, process_pending, process_cancelled_and_pending, then_pending,
}
use a_curl_library.EventLoop.Move.{move_to_queue}
use a_curl_library.EventLoop.Outcome.{KeepsPool}
use a_curl_library.EventLoop.Conserve.{owed}
use a_curl_library.EventLoop.Moves.{IsCounted}
use a_curl_library.EventLoop.Limited.{move_to_queue-Ends}
use a_curl_library.EventLoop.Cancelling.{Linked, rounds_of}
use a_curl_library.EventLoop.Cancelled.{Filed, process_cancelled-keeps}
use a_curl_library.EventLoop.Retaining.{occurs}
use a_curl_library.EventLoop.Scheduling.{process_pending-IsCounted, process_pending-bounded}

module _ {W T Q M : Type 0} ⦃d : Double W⦄ ⦃t : Table ℕ Node T⦄ ⦃m : Table Text (RateLimit W) M⦄
    ⦃q : Queue Q⦄ (table : IsTable ℕ Node T) (laws : IsQueue Q) (u : User W) where
  then_pending_done :
      (fuel : ℕ) (s s' : Sys W T Q M)
      → let s₀ = on_loop (λ l. record l { cancelled_requests = none; pending_requests = [] }) s in
        process_cancelled u fuel s.loop.cancelled_requests s₀ ≡ done s'
        → process_cancelled_and_pending u fuel s
          ≡ done (process_pending u s.loop.pending_requests s')
  unfolding process_cancelled_and_pending
  then_pending_done fuel s s' e = ap (then_pending u s.loop.pending_requests) e

  -- The scheduling of a round comes to its end, where each cancelled request stands once on the
  -- list of those and in the map that its flags name, and no request stands in two places of the
  -- pending list, the maps and the destroyed requests, and the user's callbacks leave pools alone.
  -- If the counters were the sizes of their maps, they are so afterwards; none of the requests
  -- then stands twice in the maps or among the destroyed, and none that stood nowhere has come in.
  pub schedule_keeps :
      (rs : List Pointer) (s : Sys W T Q M)
      → KeepsPool u
      → Linked s.loop.requests s.loop.cancelled_requests rs
      → ((p : Pointer) → occurs p rs ≤ 1)
      → ((p : Pointer) → 0 < occurs p rs → Filed p s.loop)
      → IsCounted s.loop
      → ((p : Pointer) → owed p s.loop + occurs p s.loop.pending_requests ≤ 1)
      → (s₁ : Sys W T Q M) × (s₂ : Sys W T Q M) × (process_cancelled_and_pending u (rounds_of rs) s
          ≡ done s₁)
        × (move_to_queue u s₁ ≡ some s₂)
        × IsCounted s₂.loop
        × ((p : Pointer) → owed p s₂.loop ≤ owed p s.loop + occurs p s.loop.pending_requests)
  schedule_keeps rs s kept linked listed filed counted once =
      let pending = s.loop.pending_requests in
      let s₀ = on_loop (λ l. record l { cancelled_requests = none; pending_requests = [] }) s in
      let (s', ends, cleared) =
        process_cancelled-keeps laws u rs s.loop.cancelled_requests s₀ kept linked listed filed
          (λ p. omega (arith, once p)) in
      let same = λ (p : Pointer). cleared.conserved kept (λ o. omega (arith, once o)) p in
      let s₁ = process_pending u pending s' in
      let moved = move_to_queue-Ends laws u s₁ in
      let right : IsCounted s₀.loop = record {
        queued = counted.queued;
        inactive = counted.inactive;
        refresh = counted.refresh;
      } in
      let bound = λ (p : Pointer).
        process_pending-bounded table laws u pending s' kept (λ o. omega (arith, same o, once o))
          p in
      let single : (p : Pointer) → owed p s₁.loop ≤ 1 =
        λ p. omega (arith, bound p, same p, once p) in
      (
        s₁,
        moved.end,
        then_pending_done (rounds_of rs) s s' ends,
        moved.same,
        moved.kept.counted
            (process_pending-IsCounted table laws u pending s' (cleared.counted right)),
        λ p. omega (arith, moved.kept.conserved kept single p, bound p, same p),
      )
