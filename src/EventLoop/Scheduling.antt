-- ===== src/EventLoop/Scheduling.antt =====
-- The pending requests of `process_cancelled_and_pending_requests`, and the scheduling behind it.
use a_curl_library.Base.{
  ℕ, ◌+◌, ◌≤◌, ◌≡◌, refl, ap, ◌∙◌, Bool, true, false, ◌==◌, ◌&&◌, not, List, [], ◌∷◌, arith,
  if◌then◌else◌, Bool-cases, inl, inr,
}
use a_curl_library.External.Double.{Double}
use a_curl_library.External.Table.{Table, IsTable}
use a_curl_library.External.Queue.{Queue, IsQueue}
use a_curl_library.RateManager.{RateLimit}
use a_curl_library.Request.{Text, Pointer}
use a_curl_library.Loop.{Node, Loop}
use a_curl_library.Resource.Refs.{is_empty}
use a_curl_library.EventLoop.{Sys, User, wrapper, set_wrapper}
use a_curl_library.EventLoop.Pending.{
  retain_deps, admit_pending, end_or_admit, process_one, process_pending,
}
use a_curl_library.EventLoop.Retaining.{occurs}
use a_curl_library.EventLoop.Frame.{
  queues, dead, IsFramed-retain_request_deps, IsEnd-request_destroy,
}
use a_curl_library.EventLoop.Outcome.{KeepsPool, Untouched}
use a_curl_library.EventLoop.Conserve.{owed, placed, counted-same}
use a_curl_library.EventLoop.Moves.{IsCounted}
use a_curl_library.EventLoop.Put.{Put, destroyed, Put-balance, Put-IsCounted}
use a_curl_library.EventLoop.Admission.{Admission, Admitted, waits, goes_on, admit_pending-Admitted}

module _ {W T Q : Type 0} ⦃q : Queue Q⦄ where
  -- The step may put the request `r` into one map, or end it, and does no more to the maps.
  record AtMost (u : User W) (r : Pointer) (l l' : Loop W T Q) : Type 0 where
    pub bounded :
        KeepsPool u
        → dead r l ≡ 0
        → (p : Pointer) → owed p l' ≤ owed p l + (if r == p then 1 else 0)
    pub counted : IsCounted l → IsCounted l'

  atmost-same :
      (u : User W) (r : Pointer) (l l' : Loop W T Q)
      → queues l' ≡ queues l
      → Untouched u l l'
      → AtMost u r l l'
  atmost-same u r l l' e pools = record {
    bounded = λ kept alive p.
        omega (arith, ap (placed p) e, ap {B = ℕ} (λ b. if b then 0 else 1) (pools kept p));
    counted = λ c. record {
      queued = counted-same _ _ _ _ (ap (λ m. m.queued) e) (ap (λ m. m.num_queued) e) c.queued;
      inactive =
          counted-same _ _ _ _ (ap (λ m. m.inactive) e) (ap (λ m. m.num_inactive) e) c.inactive;
      refresh = counted-same _ _ _ _ (ap (λ m. m.refresh) e) (ap (λ m. m.num_refresh) e) c.refresh;
    };
  }

  atmost-after :
      (u : User W) (r : Pointer) (l l' l'' : Loop W T Q)
      → queues l' ≡ queues l
      → Untouched u l l'
      → AtMost u r l' l''
      → AtMost u r l l''
  atmost-after u r l l' l'' e pools h =
      let same = atmost-same u r l l' e pools in
      record {
        bounded = λ kept alive p.
            let live = ap {B = ℕ} (λ b. if b then 0 else 1) (pools kept r) ∙ alive in
            omega (
              arith,
              h.bounded kept live p,
              ap (placed p) e,
              ap {B = ℕ} (λ b. if b then 0 else 1) (pools kept p),
            );
        counted = λ c. h.counted (same.counted c);
      }

  module _ (laws : IsQueue Q) (u : User W) where
    atmost-Put : (r : Pointer) (l l' : Loop W T Q) → Put u r l l' → AtMost u r l l'
    atmost-Put r l l' h = record {
      bounded = λ kept alive p. omega (arith, Put-balance laws u r l l' h kept alive p);
      counted = Put-IsCounted laws u r l l' h;
    }

module _ {W T Q : Type 0} ⦃t : Table ℕ Node T⦄ ⦃q : Queue Q⦄ (table : IsTable ℕ Node T)
    (laws : IsQueue Q) (u : User W) where
  atmost-Admitted : (r : Pointer) (l l' : Loop W T Q) → Admitted u r l l' → AtMost u r l l'
  atmost-Admitted r l l' (waits id x on e same) =
      atmost-same u r l l' e (λ h p. ap (λ f. (f p).pool) same)
  atmost-Admitted r l l' (goes_on ready h) = atmost-Put laws u r l l' h

module _ {W T Q M : Type 0} ⦃d : Double W⦄ ⦃t : Table ℕ Node T⦄ ⦃m : Table Text (RateLimit W) M⦄
    ⦃q : Queue Q⦄ (table : IsTable ℕ Node T) (laws : IsQueue Q) (u : User W) where
  maps-retain_deps :
      (r : Pointer) (s : Sys W T Q M) → queues (retain_deps u r s).loop ≡ queues s.loop
  unfolding retain_deps
  maps-retain_deps r s =
      let w = wrapper r s in
      let framed = IsFramed-retain_request_deps w.deps s.loop in
      elim (Bool-cases (not w.deps_retained && not (is_empty w.deps))) [
        | inl e ↦ rw (retain_deps, e) framed.maps
        | inr e ↦ rw (retain_deps, e) refl
      ]

  pools-retain_deps : (r : Pointer) (s : Sys W T Q M) → Untouched u s.loop (retain_deps u r s).loop
  unfolding retain_deps
  pools-retain_deps r s h p =
      let w = wrapper r s in
      let framed = IsFramed-retain_request_deps w.deps s.loop in
      ground (arith, ap (λ f. f p) framed.wrappers)

  atmost-admit_pending :
      (r : Pointer) (s : Sys W T Q M) → AtMost u r s.loop (admit_pending u r s).loop
  atmost-admit_pending r s =
      let s₁ = retain_deps u r s in
      atmost-after u r s.loop s₁.loop _ (maps-retain_deps r s) (pools-retain_deps r s)
        (atmost-Admitted table laws u r s₁.loop _ (admit_pending-Admitted u table r s))

  atmost-end_or_admit :
      (b : Bool) (r : Pointer) (s : Sys W T Q M) → AtMost u r s.loop (end_or_admit u b r s).loop
  unfolding end_or_admit
  atmost-end_or_admit true r s =
      let end = IsEnd-request_destroy r s.loop in
      atmost-Put laws u r s.loop _ (destroyed end.maps (λ k. end.pools))
  atmost-end_or_admit false r s = atmost-admit_pending r s

  atmost-process_one : (r : Pointer) (s : Sys W T Q M) → AtMost u r s.loop (process_one u r s).loop
  unfolding process_one
  atmost-process_one r s =
      let s₁ = set_wrapper r (record (wrapper r s) { is_pending = false }) s in
      atmost-after u r s.loop s₁.loop _ refl (λ h p. ground arith)
        (atmost-end_or_admit (wrapper r s₁).is_cancelled r s₁)

  -- The processing of the pending requests leaves every counter at the size of its map.
  pub process_pending-IsCounted :
      (rs : List Pointer) (s : Sys W T Q M)
      → IsCounted s.loop
      → IsCounted (process_pending u rs s).loop
  unfolding process_pending
  process_pending-IsCounted [] s c = c
  process_pending-IsCounted (r ∷ rs) s c =
      process_pending-IsCounted rs (process_one u r s) ((atmost-process_one r s).counted c)

  -- If no request stands in two places, counting the list that is processed, the maps and the
  -- requests that were destroyed, then afterwards a request stands at most as often in the maps and
  -- among the destroyed as before with the list.
  pub process_pending-bounded :
      (rs : List Pointer) (s : Sys W T Q M)
      → KeepsPool u
      → ((p : Pointer) → owed p s.loop + occurs p rs ≤ 1)
      → (p : Pointer) → owed p (process_pending u rs s).loop ≤ owed p s.loop + occurs p rs
  unfolding process_pending
  process_pending-bounded [] s kept once p = omega arith
  process_pending-bounded (r ∷ rs) s kept once p =
      let s₁ = process_one u r s in
      let alive : dead r s.loop ≡ 0 = ground (arith, once r) in
      let step = λ (o : Pointer). (atmost-process_one r s).bounded kept alive o in
      omega
        (arith, step p, process_pending-bounded rs s₁ kept (λ o. omega (arith, step o, once o)) p)
