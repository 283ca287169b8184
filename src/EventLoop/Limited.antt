-- ===== src/EventLoop/Limited.antt =====
-- The loop of `move_inactive_requests_to_queue` over the rate-limited requests, and the function.
use a_curl_library.EventLoop.Beside.{
  KeptBeside, beside_trans, beside_refl, beside-Tried, beside-merge, IsKept-beside,
}
use a_curl_library.Base.{
  ℕ, zero, suc, ◌<◌, ◌≡◌, refl, Option, none, some, arith, ltb, Bool-cases, Option-cases, inl, inr,
}
use a_curl_library.External.Double.{Double}
use a_curl_library.External.Table.{Table}
use a_curl_library.External.Queue.{Queue, IsQueue}
use a_curl_library.RateManager.{RateLimit}
use a_curl_library.Request.{Text, Pointer}
use a_curl_library.Loop.{Node}
use a_curl_library.EventLoop.{Sys, User, read_clock, wrapper, on_loop}
use a_curl_library.EventLoop.Move.{
  rounds, try_start, retry_limited, merge_limited, move_limited, move_to_queue,
}
use a_curl_library.EventLoop.Outcome.{KeepsPool}
use a_curl_library.EventLoop.Conserve.{size, owed, front-count}
use a_curl_library.EventLoop.Tries.{Tried-try_start}
use a_curl_library.EventLoop.Moves.{
  Once, IsCounted, Ends, Ends-after, move_refresh-Ends, move_inactive-Ends,
}

module _ {W T Q M : Type 0} ⦃q : Queue Q⦄ where
  record EndsBeside (u : User W) (root : Q) (s : Sys W T Q M) (o : Option (Sys W T Q M × Q))
      : Type 0 where
    pub end : Sys W T Q M
    pub rest : Q
    pub same : o ≡ some (end, rest)
    pub kept : KeptBeside u root rest s.loop end.loop

  beside-after :
      (u : User W) (root root' : Q) (s s' : Sys W T Q M) (o : Option (Sys W T Q M × Q))
      → KeptBeside u root root' s.loop s'.loop
      → EndsBeside u root' s' o
      → EndsBeside u root s o
  beside-after u root root' s s' o h e = record {
    end = e.end;
    rest = e.rest;
    same = e.same;
    kept = beside_trans u root root' e.rest s.loop s'.loop e.end.loop h e.kept;
  }

module _ {W T Q M : Type 0} ⦃d : Double W⦄ ⦃t : Table ℕ Node T⦄ ⦃m : Table Text (RateLimit W) M⦄
    ⦃q : Queue Q⦄ (laws : IsQueue Q) (u : User W) where
  retry_limited-Ends :
      (fuel now : ℕ) (root : Q) (s : Sys W T Q M)
      → size root < fuel
      → EndsBeside u root s (retry_limited u fuel now root s)
  unfolding retry_limited
  retry_limited-Ends zero now root s h = ground (arith, h)
  retry_limited-Ends (suc fuel) now root s h = elim (Option-cases (q.front root)) [
    | inl e ↦
        rw (e, retry_limited)
          (record { end = s; rest = root; same = refl; kept = beside_refl u root s.loop })
    | inr (r, e) ↦ elim (Bool-cases (ltb now (wrapper r s).next_retry_at)) [
      | inl early ↦
          rw (e, retry_limited, early)
            (record { end = s; rest = root; same = refl; kept = beside_refl u root s.loop })
      | inr due ↦
          let (s', root', more) = try_start u r root s in
          let tried = Tried-try_start u laws r root s e in
          let h' = beside-Tried laws u r root root' s.loop s'.loop more e tried in
          elim (Bool-cases more) [
            | inl x ↦
                rw (e, retry_limited, due, x)
                  (beside-after u root root' s s' _ h'
                    (retry_limited-Ends fuel now root' s' (omega (arith, h, tried.smaller x))))
            | inr x ↦
                rw (e, retry_limited, due, x)
                  (record { end = s'; rest = root'; same = refl; kept = h' })
          ]
    ]
  ]

  merge_limited-Ends :
      (fuel : ℕ) (root : Q) (s : Sys W T Q M)
      → size s.loop.rate_limited_requests < fuel
      → (e : EndsBeside u root s (merge_limited u fuel root s)) × (q.front
            e.end.loop.rate_limited_requests
          ≡ none)
  unfolding merge_limited
  merge_limited-Ends zero root s h = ground (arith, h)
  merge_limited-Ends (suc fuel) root s h =
      elim (Option-cases (q.front s.loop.rate_limited_requests)) [
        | inl e ↦
            rw (e, merge_limited)
              ((record { end = s; rest = root; same = refl; kept = beside_refl u root s.loop }), e)
        | inr (r, e) ↦
            let k = (wrapper r s).next_retry_at in
            let limited = s.loop.rate_limited_requests in
            let s' = on_loop (λ l. record l { rate_limited_requests = q.remove r limited }) s in
            let (j, less) = laws.sum-remove r limited (front-count laws limited r e) in
            let (ends, nothing) =
              merge_limited-Ends fuel (q.insert k r root) s' (omega (arith, h, less (λ i p. 1))) in
            rw (e, merge_limited)
              (
                record {
                  end = ends.end;
                  rest = ends.rest;
                  same = ends.same;
                  kept =
                      beside_trans u root (q.insert k r root) ends.rest s.loop s'.loop ends.end.loop
                        (beside-merge laws u r k root s.loop e) ends.kept;
                },
                nothing,
              )
      ]

  move_limited-Ends : (s : Sys W T Q M) → Ends u s (move_limited u s)
  unfolding move_limited
  move_limited-Ends s =
      let root = s.loop.rate_limited_requests in
      let (s₁, now) =
        read_clock (on_loop (λ l. record l { rate_limited_requests = q.nothing }) s) in
      let a = retry_limited-Ends (rounds root) now root s₁ (omega arith) in
      let (b, nothing) =
        merge_limited-Ends (rounds a.end.loop.rate_limited_requests) a.rest a.end (omega arith) in
      let all = beside_trans u root a.rest b.rest s₁.loop a.end.loop b.end.loop a.kept b.kept in
      record {
        end = on_loop (λ l. record l { rate_limited_requests = b.rest }) b.end;
        same = rw (move_limited, a.same, b.same) refl;
        kept = IsKept-beside laws u root b.rest s.loop b.end.loop refl nothing all;
      }

  pub move_to_queue-Ends : (s : Sys W T Q M) → Ends u s (move_to_queue u s)
  unfolding move_to_queue
  move_to_queue-Ends s =
      let a = move_limited-Ends s in
      let b = move_refresh-Ends laws u (rounds a.end.loop.refresh_requests) a.end (omega arith) in
      let c = move_inactive-Ends laws u (rounds b.end.loop.inactive_requests) b.end (omega arith) in
      rw (move_to_queue, a.same, b.same)
        (Ends-after u s a.end _ a.kept (Ends-after u a.end b.end _ b.kept c))

  -- `move_inactive_requests_to_queue` comes to an end with the rounds that it is given: one for
  -- each request of the map and one more, where the user's callbacks leave the pool of a request
  -- alone. If the counters were the sizes of their maps they are so afterwards; and if no request
  -- stood in two maps or was destroyed while it stood in one, then each request stands in as many
  -- maps, with one for its end, as before: none is lost or doubled.
  pub move_to_queue-keeps :
      (s : Sys W T Q M)
      → KeepsPool u
      → IsCounted s.loop
      → Once s.loop
      → (s' : Sys W T Q M) × (move_to_queue u s ≡ some s')
        × IsCounted s'.loop
        × ((p : Pointer) → owed p s'.loop ≡ owed p s.loop)
  move_to_queue-keeps s kept counted once =
      let h = move_to_queue-Ends s in
      (h.end, h.same, h.kept.counted counted, h.kept.conserved kept once)
