-- ===== src/EventLoop/Tries.antt =====
-- One round of the three loops of `move_inactive_requests_to_queue`.
use a_curl_library.Base.{
  ℕ, ◌+◌, ◌%◌, ◌^◌, ◌≡◌, refl, ◌∙◌, subst, false, ◌==◌, some, arith, Bool-cases, inl, inr,
}
use a_curl_library.External.Double.{Double}
use a_curl_library.External.Table.{Table}
use a_curl_library.External.Queue.{Queue, IsQueue}
use a_curl_library.RateManager.{RateLimit}
use a_curl_library.Request.{Text, Pointer}
use a_curl_library.Loop.{Node}
use a_curl_library.EventLoop.{Sys, User, read_clock, set_next_retry, insert_limited}
use a_curl_library.EventLoop.Start.{
  rate_wait, request_is_rate_limited, request_ready, request_start,
}
use a_curl_library.EventLoop.Move.{try_start}
use a_curl_library.EventLoop.Outcome.{
  Outcome, Outcome-request_start, loop-rate_wait, loop-request_ready, limited,
}
use a_curl_library.EventLoop.Conserve.{Tried, Tried-Outcome, Tried-same, front-count}

module _ {W T Q M : Type 0} ⦃d : Double W⦄ ⦃t : Table ℕ Node T⦄ ⦃m : Table Text (RateLimit W) M⦄
    ⦃q : Queue Q⦄ (u : User W) where
  Outcome-insert_limited :
      (r : Pointer) (at : ℕ) (s : Sys W T Q M)
      → Outcome u r s.loop (insert_limited r (set_next_retry r at s)).loop false
  Outcome-insert_limited r at s = limited _ refl (λ h p. ground arith)

  -- a request that the rate manager lets wait
  Outcome-limited :
      (r : Pointer) (root : Q) (s : Sys W T Q M)
      → ((rate_wait r s).1 == 0) ≡ false
      → Outcome u r s.loop (request_is_rate_limited r root s).0.loop false
  unfolding request_is_rate_limited
  Outcome-limited r root s x =
      let (s₁, next) = rate_wait r s in
      let (s₂, now) = read_clock s₁ in
      let at = (now + next) % 2 ^ 64 in
      rw (request_is_rate_limited, x)
        (subst (λ l. Outcome u r l (insert_limited r (set_next_retry r at s₂)).loop false)
          (loop-rate_wait r s) (Outcome-insert_limited r at s₂))

  module _ (laws : IsQueue Q) where
    pub Tried-try_start :
        (r : Pointer) (root : Q) (s : Sys W T Q M)
        → q.front root ≡ some r
        → let s' = try_start u r root s in Tried u r root s'.1 s.loop s'.0.loop s'.2
    unfolding try_start request_is_rate_limited
    Tried-try_start r root s e =
        let here = front-count laws root r e in
        elim (Bool-cases ((rate_wait r s).1 == 0)) [
          | inl x ↦
              let s₁ = (rate_wait r s).0 in
              let s₂ = (request_ready r s₁).0 in
              let same = loop-request_ready r s₁ ∙ loop-rate_wait r s in
              elim (Bool-cases (request_ready r s₁).1) [
                | inl y ↦
                    rw (try_start, x, y)
                      (Tried-Outcome laws u r root s.loop _ _ here (
                        subst
                          (λ l.
                            Outcome u r l (request_start u r s₂).0.loop (request_start u r s₂).1)
                          same (Outcome-request_start u r s₂)))
                | inr y ↦ rw (try_start, x, y) (Tried-same laws u r root s.loop s₂.loop same)
              ]
          | inr x ↦
              let h = Tried-Outcome laws u r root s.loop _ _ here (Outcome-limited r root s x) in
              rw (try_start, request_is_rate_limited, x) (rw (request_is_rate_limited, x) at h)
        ]
