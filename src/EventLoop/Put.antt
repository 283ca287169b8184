-- ===== src/EventLoop/Put.antt =====
-- Where a request goes that stood in no map.
use a_curl_library.Base.{
  ℕ, ◌+◌, ◌≡◌, refl, ap, ◌∙◌, Bool, ◌==◌, pos, ◌+ℤ◌, arith, if◌then◌else◌, Bool-cases, inl, inr,
}
use a_curl_library.External.Double.{Double}
use a_curl_library.External.Table.{Table}
use a_curl_library.RateManager.{RateLimit}
use a_curl_library.External.Queue.{Queue, IsQueue, is_request}
use a_curl_library.Request.{Text, Pointer}
use a_curl_library.Loop.{Loop}
use a_curl_library.EventLoop.{Sys, User, wrapper}
use a_curl_library.EventLoop.Start.{enqueue_request}
use a_curl_library.EventLoop.Frame.{Queues, queues, dead}
use a_curl_library.EventLoop.Outcome.{
  KeepsPool, Outcome, Untouched, Buried, put_queued, put_limited, queued, limited, ended,
}
use a_curl_library.EventLoop.Conserve.{owed, placed, counted-insert, counted-same}
use a_curl_library.EventLoop.Moves.{IsCounted}

module _ {Q : Type 0} ⦃q : Queue Q⦄ where
  abbrev pub put_inactive : ℕ → Pointer → Queues Q → Queues Q
  put_inactive k r m = record m {
    inactive = q.insert k r m.inactive;
    num_inactive = m.num_inactive +ℤ pos 1;
  }

  abbrev pub put_refresh : ℕ → Pointer → Queues Q → Queues Q
  put_refresh k r m = record m {
    refresh = q.insert k r m.refresh;
    num_refresh = m.num_refresh +ℤ pos 1;
  }

module _ {W T Q : Type 0} ⦃q : Queue Q⦄ where
  -- The request is put into one map, with its counter, or destroyed.
  pub data Put (u : User W) (r : Pointer) (l l' : Loop W T Q) : Type 0 where
    at_queued : (k : ℕ) → queues l' ≡ put_queued k r (queues l) → Untouched u l l' → Put u r l l'
    at_inactive :
        (k : ℕ) → queues l' ≡ put_inactive k r (queues l) → Untouched u l l' → Put u r l l'
    at_refresh : (k : ℕ) → queues l' ≡ put_refresh k r (queues l) → Untouched u l l' → Put u r l l'
    at_limited : (k : ℕ) → queues l' ≡ put_limited k r (queues l) → Untouched u l l' → Put u r l l'
    destroyed : queues l' ≡ queues l → Buried u r l l' → Put u r l l'

  pub Put-Outcome :
      (u : User W) (r : Pointer) (l l' : Loop W T Q) (b : Bool) → Outcome u r l l' b → Put u r l l'
  Put-Outcome u r l l' b (queued k e pools) = at_queued k e pools
  Put-Outcome u r l l' b (limited k e pools) = at_limited k e pools
  Put-Outcome u r l l' b (ended e pools) = destroyed e pools

  -- Nothing of the maps, the counters and the pools has changed before.
  pub Put-after :
      (u : User W) (r : Pointer) (l l' l'' : Loop W T Q)
      → queues l' ≡ queues l
      → Untouched u l l'
      → Put u r l' l''
      → Put u r l l''
  Put-after u r l l' l'' x y (at_queued k e pools) =
      at_queued k (e ∙ ap (put_queued k r) x) (λ h p. pools h p ∙ y h p)
  Put-after u r l l' l'' x y (at_inactive k e pools) =
      at_inactive k (e ∙ ap (put_inactive k r) x) (λ h p. pools h p ∙ y h p)
  Put-after u r l l' l'' x y (at_refresh k e pools) =
      at_refresh k (e ∙ ap (put_refresh k r) x) (λ h p. pools h p ∙ y h p)
  Put-after u r l l' l'' x y (at_limited k e pools) =
      at_limited k (e ∙ ap (put_limited k r) x) (λ h p. pools h p ∙ y h p)
  Put-after u r l l' l'' x y (destroyed e pools) =
      destroyed (e ∙ x) (λ h p. ground (arith, pools h p, y h p))

  -- Nothing of the maps, the counters and the wrappers changes behind it.
  pub Put-then :
      (u : User W) (r : Pointer) (l l' l'' : Loop W T Q)
      → queues l'' ≡ queues l'
      → l''.requests ≡ l'.requests
      → Put u r l l'
      → Put u r l l''
  Put-then u r l l' l'' x y (at_queued k e pools) =
      at_queued k (x ∙ e) (λ h p. ap (λ f. (f p).pool) y ∙ pools h p)
  Put-then u r l l' l'' x y (at_inactive k e pools) =
      at_inactive k (x ∙ e) (λ h p. ap (λ f. (f p).pool) y ∙ pools h p)
  Put-then u r l l' l'' x y (at_refresh k e pools) =
      at_refresh k (x ∙ e) (λ h p. ap (λ f. (f p).pool) y ∙ pools h p)
  Put-then u r l l' l'' x y (at_limited k e pools) =
      at_limited k (x ∙ e) (λ h p. ap (λ f. (f p).pool) y ∙ pools h p)
  Put-then u r l l' l'' x y (destroyed e pools) =
      destroyed (x ∙ e) (λ h p. ap (λ f. (f p).pool) y ∙ pools h p)

  module _ (laws : IsQueue Q) (u : User W) (r : Pointer) (l l' : Loop W T Q) where
    -- A request that was alive is then in one map more, or no longer alive.
    pub Put-balance :
        Put u r l l'
        → KeepsPool u
        → dead r l ≡ 0
        → (p : Pointer) → owed p l' ≡ owed p l + (if r == p then 1 else 0)
    Put-balance (at_queued k e pools) kept alive p = omega (
      arith,
      ap (placed p) e,
      laws.sum-insert (is_request p) k r l.queued_requests,
      ap {B = ℕ} (λ b. if b then 0 else 1) (pools kept p),
    )
    Put-balance (at_inactive k e pools) kept alive p = omega (
      arith,
      ap (placed p) e,
      laws.sum-insert (is_request p) k r l.inactive_requests,
      ap {B = ℕ} (λ b. if b then 0 else 1) (pools kept p),
    )
    Put-balance (at_refresh k e pools) kept alive p = omega (
      arith,
      ap (placed p) e,
      laws.sum-insert (is_request p) k r l.refresh_requests,
      ap {B = ℕ} (λ b. if b then 0 else 1) (pools kept p),
    )
    Put-balance (at_limited k e pools) kept alive p = omega (
      arith,
      ap (placed p) e,
      laws.sum-insert (is_request p) k r l.rate_limited_requests,
      ap {B = ℕ} (λ b. if b then 0 else 1) (pools kept p),
    )
    Put-balance (destroyed e pools) kept alive p =
        ground (arith, ap (placed p) e, pools kept p, alive)

  -- Counters that are right are right afterwards.
  module _ (laws : IsQueue Q) (u : User W) (r : Pointer) (l l' : Loop W T Q) where
    pub Put-IsCounted : Put u r l l' → IsCounted l → IsCounted l'
    Put-IsCounted (at_queued k e pools) c = record {
      queued =
          counted-insert laws k r _ _ _ _ (ap (λ m. m.queued) e) (ap (λ m. m.num_queued) e)
            c.queued;
      inactive =
          counted-same _ _ _ _ (ap (λ m. m.inactive) e) (ap (λ m. m.num_inactive) e) c.inactive;
      refresh = counted-same _ _ _ _ (ap (λ m. m.refresh) e) (ap (λ m. m.num_refresh) e) c.refresh;
    }
    Put-IsCounted (at_inactive k e pools) c = record {
      queued = counted-same _ _ _ _ (ap (λ m. m.queued) e) (ap (λ m. m.num_queued) e) c.queued;
      inactive =
          counted-insert laws k r _ _ _ _ (ap (λ m. m.inactive) e) (ap (λ m. m.num_inactive) e)
            c.inactive;
      refresh = counted-same _ _ _ _ (ap (λ m. m.refresh) e) (ap (λ m. m.num_refresh) e) c.refresh;
    }
    Put-IsCounted (at_refresh k e pools) c = record {
      queued = counted-same _ _ _ _ (ap (λ m. m.queued) e) (ap (λ m. m.num_queued) e) c.queued;
      inactive =
          counted-same _ _ _ _ (ap (λ m. m.inactive) e) (ap (λ m. m.num_inactive) e) c.inactive;
      refresh =
          counted-insert laws k r _ _ _ _ (ap (λ m. m.refresh) e) (ap (λ m. m.num_refresh) e)
            c.refresh;
    }
    Put-IsCounted (at_limited k e pools) c = record {
      queued = counted-same _ _ _ _ (ap (λ m. m.queued) e) (ap (λ m. m.num_queued) e) c.queued;
      inactive =
          counted-same _ _ _ _ (ap (λ m. m.inactive) e) (ap (λ m. m.num_inactive) e) c.inactive;
      refresh = counted-same _ _ _ _ (ap (λ m. m.refresh) e) (ap (λ m. m.num_refresh) e) c.refresh;
    }
    Put-IsCounted (destroyed e pools) c = record {
      queued = counted-same _ _ _ _ (ap (λ m. m.queued) e) (ap (λ m. m.num_queued) e) c.queued;
      inactive =
          counted-same _ _ _ _ (ap (λ m. m.inactive) e) (ap (λ m. m.num_inactive) e) c.inactive;
      refresh = counted-same _ _ _ _ (ap (λ m. m.refresh) e) (ap (λ m. m.num_refresh) e) c.refresh;
    }

module _ {W T Q M : Type 0} ⦃d : Double W⦄ ⦃m : Table Text (RateLimit W) M⦄ ⦃q : Queue Q⦄
    (u : User W) where
  pub Put-enqueue_request :
      (r : Pointer) (s : Sys W T Q M) → Put u r s.loop (enqueue_request r s).loop
  unfolding enqueue_request
  Put-enqueue_request r s = elim (Bool-cases (wrapper r s).should_refresh) [
    | inl e ↦ rw (enqueue_request, e) (at_refresh _ refl (λ h p. refl))
    | inr e ↦ rw (enqueue_request, e) (at_inactive _ refl (λ h p. refl))
  ]
