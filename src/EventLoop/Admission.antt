-- ===== src/EventLoop/Admission.antt =====
-- What `process_cancelled_and_pending_requests` does with one pending request.
use a_curl_library.Base.{
  ◌+◌, ◌==◌, if◌then◌else◌, ℕ, ◌≡◌, refl, ap, ◌∙◌, Bool, true, false, Option, none, some,
  if◌then◌else◌,
}
use a_curl_library.External.Double.{Double}
use a_curl_library.External.Table.{Table, IsTable}
use a_curl_library.External.Queue.{Queue, IsQueue}
use a_curl_library.RateManager.{RateLimit}
use a_curl_library.Request.{Text, Pointer}
use a_curl_library.Loop.{Node, Loop}
use a_curl_library.Resource.Blocking.{check_and_block_list, all_ready_list}
use a_curl_library.Resource.Waits.{
  first_unmet, all_ready-first_unmet, BlockedOn, Checked, check_blocks_first_unmet,
}
use a_curl_library.EventLoop.{Sys, User, wrapper}
use a_curl_library.EventLoop.Start.{
  waiting_on_dependencies, request_ready, request_start, enqueue_request,
}
use a_curl_library.EventLoop.Pending.{retain_deps, admit_retained, admit_pending}
use a_curl_library.EventLoop.Frame.{dead, queues, IsFramed-check_and_block_list}
use a_curl_library.EventLoop.Outcome.{KeepsPool, Outcome-request_start, loop-request_ready}
use a_curl_library.EventLoop.Conserve.{owed}
use a_curl_library.EventLoop.Moves.{IsCounted}
use a_curl_library.EventLoop.Put.{
  Put-balance, Put-IsCounted, Put, Put-after, Put-Outcome, Put-enqueue_request,
}

module _ {W T Q : Type 0} ⦃t : Table ℕ Node T⦄ ⦃q : Queue Q⦄ where
  -- Where a pending request that was not cancelled stands afterwards; `l` is the loop in which its
  -- dependencies are retained.
  pub data Admitted (u : User W) (r : Pointer) (l l' : Loop W T Q) : Type 0 where
    waits :
        (id : ℕ)
        → first_unmet (l.requests r).deps l ≡ some id
        → BlockedOn r id l l'
        → queues l' ≡ queues l
        → l'.requests ≡ l.requests
        → Admitted u r l l'
    goes_on : all_ready_list (l.requests r).deps l ≡ true → Put u r l l' → Admitted u r l l'

module _ {W T Q M : Type 0} ⦃d : Double W⦄ ⦃t : Table ℕ Node T⦄ ⦃m : Table Text (RateLimit W) M⦄
    ⦃q : Queue Q⦄ (u : User W) where
  -- behind the dependencies
  Put-ready :
      (r : Pointer) (s : Sys W T Q M) (b : Bool)
      → Put u r s.loop (if b then (request_start u r s).0 else enqueue_request r s).loop
  Put-ready r s true = Put-Outcome u r s.loop _ _ (Outcome-request_start u r s)
  Put-ready r s false = Put-enqueue_request u r s

  module _ (laws : IsTable ℕ Node T) where
    -- The loop behind the check of the dependencies, for what it finds.
    admit-Checked :
        (r : Pointer) (s : Sys W T Q M) (o : Option ℕ)
        → first_unmet (wrapper r s).deps s.loop ≡ o
        → Checked r o s.loop (check_and_block_list r (wrapper r s).deps s.loop)
        → Admitted u r s.loop (admit_retained u r s).loop
    unfolding admit_retained waiting_on_dependencies
    admit-Checked r s none e (free, same) =
        let s₁ = (waiting_on_dependencies r s).0 in
        let s₂ = (request_ready r s₁).0 in
        let framed = IsFramed-check_and_block_list r (wrapper r s).deps s.loop in
        let alike = loop-request_ready r s₁ in
        goes_on (all_ready-first_unmet (wrapper r s).deps s.loop e) (
          rw (admit_retained, waiting_on_dependencies, free)
            (Put-after u r s.loop s₂.loop _ (ap queues alike ∙ framed.maps)
              (λ h p. ap (λ l. (l.requests p).pool) alike ∙ ap (λ f. (f p).pool) framed.wrappers)
              (Put-ready r s₂ (request_ready r s₁).1)))
    admit-Checked r s (some id) e (blocked, on) =
        let framed = IsFramed-check_and_block_list r (wrapper r s).deps s.loop in
        rw (admit_retained, waiting_on_dependencies, blocked)
          (waits id e on framed.maps framed.wrappers)

    pub admit_pending-Admitted :
        (r : Pointer) (s : Sys W T Q M)
        → Admitted u r (retain_deps u r s).loop (admit_pending u r s).loop
    unfolding admit_pending
    admit_pending-Admitted r s =
        let s' = retain_deps u r s in
        admit-Checked r s' _ refl (check_blocks_first_unmet laws r (wrapper r s').deps s'.loop)

module _ {W T Q : Type 0} ⦃t : Table ℕ Node T⦄ ⦃q : Queue Q⦄ where
  -- Where a pending request stands, `l` being the loop in which its dependencies are retained: it
  -- waits on its first dependency that is not ready, or all are ready and it has found one place.
  pub data Admission (r : Pointer) (l l' : Loop W T Q) : Type 0 where
    on_resource :
        (id : ℕ)
        → first_unmet (l.requests r).deps l ≡ some id
        → BlockedOn r id l l'
        → queues l' ≡ queues l
        → l'.requests ≡ l.requests
        → Admission r l l'
    in_place :
        all_ready_list (l.requests r).deps l ≡ true
        → IsCounted l'
        → ((p : Pointer) → owed p l' ≡ owed p l + (if r == p then 1 else 0))
        → Admission r l l'

  pub Admission-Admitted :
      (laws : IsQueue Q) (u : User W) (r : Pointer) (l l' : Loop W T Q)
      → KeepsPool u
      → IsCounted l
      → dead r l ≡ 0
      → Admitted u r l l'
      → Admission r l l'
  Admission-Admitted laws u r l l' kept counted alive (waits id e on x y) = on_resource id e on x y
  Admission-Admitted laws u r l l' kept counted alive (goes_on ready h) =
      in_place ready (Put-IsCounted laws u r l l' h counted)
        (Put-balance laws u r l l' h kept alive)
