-- ===== src/EventLoop/Away.antt =====
-- Where a request goes that is not a transfer any more: one of the maps of waiting requests, or its
-- end.
use a_curl_library.Base.{◌≡◌, refl, ap, ◌∙◌, ℕ, Bool-cases, inl, inr, arith}
use a_curl_library.External.Double.{Double}
use a_curl_library.External.Table.{Table}
use a_curl_library.External.Queue.{Queue}
use a_curl_library.RateManager.{RateLimit}
use a_curl_library.Request.{Text, Pointer}
use a_curl_library.Loop.{Loop}
use a_curl_library.EventLoop.{Sys, User, wrapper}
use a_curl_library.EventLoop.Start.{enqueue_request}
use a_curl_library.EventLoop.Frame.{queues}
use a_curl_library.EventLoop.Outcome.{Untouched, Buried, put_limited}
use a_curl_library.EventLoop.Put.{
  Put, put_inactive, put_refresh, at_inactive, at_refresh, at_limited, destroyed,
}

module _ {W T Q : Type 0} ⦃q : Queue Q⦄ where
  pub data Away (u : User W) (r : Pointer) (l l' : Loop W T Q) : Type 0 where
    waits_inactive :
        (k : ℕ) → queues l' ≡ put_inactive k r (queues l) → Untouched u l l' → Away u r l l'
    waits_refresh :
        (k : ℕ) → queues l' ≡ put_refresh k r (queues l) → Untouched u l l' → Away u r l l'
    waits_limited :
        (k : ℕ) → queues l' ≡ put_limited k r (queues l) → Untouched u l l' → Away u r l l'
    gone : queues l' ≡ queues l → Buried u r l l' → Away u r l l'

  pub Away-Put : (u : User W) (r : Pointer) (l l' : Loop W T Q) → Away u r l l' → Put u r l l'
  Away-Put u r l l' (waits_inactive k e pools) = at_inactive k e pools
  Away-Put u r l l' (waits_refresh k e pools) = at_refresh k e pools
  Away-Put u r l l' (waits_limited k e pools) = at_limited k e pools
  Away-Put u r l l' (gone e pools) = destroyed e pools

  -- The transfers stay as they are.
  pub Away-queued :
      (u : User W) (r : Pointer) (l l' : Loop W T Q)
      → Away u r l l'
      → l'.queued_requests ≡ l.queued_requests
  Away-queued u r l l' (waits_inactive k e pools) = ap (λ m. m.queued) e
  Away-queued u r l l' (waits_refresh k e pools) = ap (λ m. m.queued) e
  Away-queued u r l l' (waits_limited k e pools) = ap (λ m. m.queued) e
  Away-queued u r l l' (gone e pools) = ap (λ m. m.queued) e

  pub Away-after :
      (u : User W) (r : Pointer) (l l' l'' : Loop W T Q)
      → queues l' ≡ queues l
      → Untouched u l l'
      → Away u r l' l''
      → Away u r l l''
  Away-after u r l l' l'' x y (waits_inactive k e pools) =
      waits_inactive k (e ∙ ap (put_inactive k r) x) (λ h p. pools h p ∙ y h p)
  Away-after u r l l' l'' x y (waits_refresh k e pools) =
      waits_refresh k (e ∙ ap (put_refresh k r) x) (λ h p. pools h p ∙ y h p)
  Away-after u r l l' l'' x y (waits_limited k e pools) =
      waits_limited k (e ∙ ap (put_limited k r) x) (λ h p. pools h p ∙ y h p)
  Away-after u r l l' l'' x y (gone e pools) =
      gone (e ∙ x) (λ h p. ground (arith, pools h p, y h p))

  pub Away-then :
      (u : User W) (r : Pointer) (l l' l'' : Loop W T Q)
      → queues l'' ≡ queues l'
      → l''.requests ≡ l'.requests
      → Away u r l l'
      → Away u r l l''
  Away-then u r l l' l'' x y (waits_inactive k e pools) =
      waits_inactive k (x ∙ e) (λ h p. ap (λ f. (f p).pool) y ∙ pools h p)
  Away-then u r l l' l'' x y (waits_refresh k e pools) =
      waits_refresh k (x ∙ e) (λ h p. ap (λ f. (f p).pool) y ∙ pools h p)
  Away-then u r l l' l'' x y (waits_limited k e pools) =
      waits_limited k (x ∙ e) (λ h p. ap (λ f. (f p).pool) y ∙ pools h p)
  Away-then u r l l' l'' x y (gone e pools) =
      gone (x ∙ e) (λ h p. ap (λ f. (f p).pool) y ∙ pools h p)

module _ {W T Q M : Type 0} ⦃d : Double W⦄ ⦃m : Table Text (RateLimit W) M⦄ ⦃q : Queue Q⦄
    (u : User W) where
  pub Away-enqueue_request :
      (r : Pointer) (s : Sys W T Q M) → Away u r s.loop (enqueue_request r s).loop
  unfolding enqueue_request
  Away-enqueue_request r s = elim (Bool-cases (wrapper r s).should_refresh) [
    | inl e ↦ rw (enqueue_request, e) (waits_refresh _ refl (λ h p. refl))
    | inr e ↦ rw (enqueue_request, e) (waits_inactive _ refl (λ h p. refl))
  ]
