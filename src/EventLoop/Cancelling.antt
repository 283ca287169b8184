-- ===== src/EventLoop/Cancelling.antt =====
-- The cancelled requests of `process_cancelled_and_pending_requests`.
use a_curl_library.Base.{
  ℕ, suc, ◌+◌, ◌≤◌, ◌≡◌, refl, ap, ◌∙◌, Bool, true, false, ◌==◌, Option, none, some, List, [], ◌∷◌,
  arith, if◌then◌else◌,
}
use a_curl_library.External.Double.{Double}
use a_curl_library.External.Table.{Table}
use a_curl_library.External.Queue.{Queue}
use a_curl_library.RateManager.{RateLimit}
use a_curl_library.Request.{Text, Pointer, Wrapper}
use a_curl_library.Loop.{Node, Loop}
use a_curl_library.Resource.Lifecycle.{request_destroy}
use a_curl_library.Resource.Teardown.{done, fault}
use a_curl_library.EventLoop.{Sys, User, wrapper, on_loop}
use a_curl_library.EventLoop.Cancel.{cancel}
use a_curl_library.EventLoop.Pending.{unlink_cancelled, process_cancelled}
use a_curl_library.EventLoop.Frame.{dead, IsEnd-request_destroy}
use a_curl_library.EventLoop.Retaining.{occurs}

abbrev pub rounds_of : List Pointer → ℕ
rounds_of [] = 1
rounds_of (r ∷ rs) = suc (rounds_of rs)

module _ {W : Type 0} where
  -- The cancelled requests from `next` on, along `next_cancelled`, are the list.
  abbrev pub Linked : (Pointer → Wrapper W) → Option Pointer → List Pointer → Type 0
  Linked w next [] = next ≡ none
  Linked w next (r ∷ rs) = (next ≡ some r) × Linked w (w r).next_cancelled rs

  pub Linked-same :
      (w w' : Pointer → Wrapper W) (next next' : Option Pointer) (rs : List Pointer)
      → ((p : Pointer) → (w' p).next_cancelled ≡ (w p).next_cancelled)
      → next' ≡ next
      → Linked w next rs
      → Linked w' next' rs
  Linked-same w w' next next' [] same e h = e ∙ h
  Linked-same w w' next next' (r ∷ rs) same e (x, h) =
      (e ∙ x, Linked-same w w' (w r).next_cancelled (w' r).next_cancelled rs same (same r) h)

module _ {W T Q M : Type 0} ⦃d : Double W⦄ ⦃t : Table ℕ Node T⦄ ⦃m : Table Text (RateLimit W) M⦄
    ⦃q : Queue Q⦄ (u : User W) where
  pub wrappers-unlink_cancelled :
      (r : Pointer) (s : Sys W T Q M) → (unlink_cancelled u r s).loop.requests ≡ s.loop.requests
  unfolding unlink_cancelled
  wrappers-unlink_cancelled r s = ground arith

  -- one round of the loop
  abbrev pub end_one : Pointer → Sys W T Q M → Sys W T Q M
  end_one r s = on_loop (request_destroy r) (unlink_cancelled u r s)

  dead-end_one :
      (r p : Pointer) (s : Sys W T Q M)
      → dead p (end_one r s).loop ≡ (if p == r then 1 else dead p s.loop)
  dead-end_one r p s =
      let same = ap (λ w. (w p).pool) (wrappers-unlink_cancelled r s) in
      ground (arith, (IsEnd-request_destroy r (unlink_cancelled u r s).loop).pools p, same)

  pub links-end_one :
      (r p : Pointer) (s : Sys W T Q M)
      → (wrapper p (end_one r s)).next_cancelled ≡ (wrapper p s).next_cancelled
  links-end_one r p s =
      (IsEnd-request_destroy r (unlink_cancelled u r s).loop).links p
      ∙ ap (λ w. (w p).next_cancelled) (wrappers-unlink_cancelled r s)

  -- Cancelled requests that are alive and stand once on the list are each destroyed once, no other
  -- request is, and none is read after its end.
  pub process_cancelled_ends :
      (rs : List Pointer) (next : Option Pointer) (s : Sys W T Q M)
      → Linked s.loop.requests next rs
      → ((p : Pointer) → dead p s.loop + occurs p rs ≤ 1)
      → (s' : Sys W T Q M) × (process_cancelled u (rounds_of rs) next s ≡ done s')
        × ((p : Pointer) → dead p s'.loop ≡ dead p s.loop + occurs p rs)
  unfolding process_cancelled
  process_cancelled_ends [] next s h once = (s, rw (process_cancelled, h) refl, λ p. omega arith)
  process_cancelled_ends (r ∷ rs) next s (e, h) once =
      let s₁ = end_one r s in
      let alive : (wrapper r s).pool ≡ true = ground (arith, once r) in
      let (s', same, ends) =
        process_cancelled_ends rs (wrapper r s).next_cancelled s₁
          (Linked-same s.loop.requests s₁.loop.requests _ _ rs (λ p. links-end_one r p s) refl h)
          (λ p. ground (arith, dead-end_one r p s, once p)) in
      (
        s',
        rw (process_cancelled, e, alive) same,
        λ p. ground (arith, ends p, dead-end_one r p s, once p),
      )

  self_linked_faults :
      (r : Pointer) (s : Sys W T Q M) (fuel : ℕ)
      → (wrapper r s).next_cancelled ≡ some r
      → (wrapper r s).pool ≡ true
      → process_cancelled u (suc (suc fuel)) (some r) s ≡ fault
  unfolding process_cancelled
  self_linked_faults r s fuel self alive =
      let ended : (wrapper r (end_one r s)).pool ≡ false = ground (arith, dead-end_one r r s) in
      rw (process_cancelled, alive, self, ended) refl

module _ {W T Q : Type 0} where
  -- What two calls of `curl_event_loop_cancel` leave.
  record Cancelled (r : Pointer) (x : Loop W T Q × Bool) : Type 0 where
    pub answer : x.1 ≡ true
    pub head : x.0.cancelled_requests ≡ some r
    pub alive : (x.0.requests r).pool ≡ true

  cancel-Cancelled :
      (r : Pointer) (l : Loop W T Q)
      → (l.requests r).next_cancelled ≡ none
      → (l.requests r).is_pending ≡ false
      → (l.requests r).pool ≡ true
      → Cancelled r (cancel r l)
        × (((cancel r l).0.requests r).next_cancelled ≡ l.cancelled_requests)
        × (((cancel r l).0.requests r).is_pending ≡ false)
  unfolding cancel
  cancel-Cancelled r l unlinked idle alive = (
    record { answer = ground arith; head = ground arith; alive = ground arith },
    ground arith,
    ground arith,
  )

module _ {W T Q M : Type 0} ⦃d : Double W⦄ ⦃t : Table ℕ Node T⦄ ⦃m : Table Text (RateLimit W) M⦄
    ⦃q : Queue Q⦄ (u : User W) where
  -- A request that is in no list of pending requests, and is cancelled twice while no other request
  -- is cancelled, links to itself: both calls succeed, and the loop over the cancelled requests
  -- destroys it and then reads it again.
  pub cancel_twice_faults :
      (r : Pointer) (s : Sys W T Q M) (fuel : ℕ)
      → s.loop.cancelled_requests ≡ none
      → (wrapper r s).next_cancelled ≡ none
      → (wrapper r s).is_pending ≡ false
      → (wrapper r s).pool ≡ true
      → let once = cancel r s.loop in
        let twice = cancel r once.0 in
        (once.1 ≡ true)
        × (twice.1 ≡ true)
        × (process_cancelled u
              (suc (suc fuel))
              twice.0.cancelled_requests
              (record s { loop = twice.0 })
            ≡ fault)
  cancel_twice_faults r s fuel empty unlinked idle alive =
      let (a, link, idle') = cancel-Cancelled r s.loop unlinked idle alive in
      let once = cancel r s.loop in
      let (b, self, _) = cancel-Cancelled r once.0 (link ∙ empty) idle' a.alive in
      let s' : Sys W T Q M = record s { loop = (cancel r once.0).0 } in
      (
        a.answer,
        b.answer,
        ap (λ h. process_cancelled u (suc (suc fuel)) h s') b.head
            ∙ self_linked_faults u r s' fuel (self ∙ a.head) b.alive,
      )
