-- ===== src/Resource/Faults.antt =====
-- A failure that frees the node on which its other waiters still hang.
use a_curl_library.Base.{ℕ, ◌≡◌, refl, ◌∙◌, ap, true, Option, none, some, List, [], ◌∷◌, pos, arith}
use a_curl_library.External.Table.{Table, IsTable}
use a_curl_library.Request.{Pointer}
use a_curl_library.Loop.{Node, Loop}
use a_curl_library.Resource.Refs.{
  or_placeholder, node_of, write_node, run_cleanup, release_dep, release_request_deps,
}
use a_curl_library.Resource.Lifecycle.{request_cleanup, let_go}
use a_curl_library.Resource.Untouched.{
  resources-request_cleanup, resources-request_destroy, resources-call_on_failure,
}
use a_curl_library.Resource.Publish.{call_on_failure, fail_waiter, wake_waiters, published, publish}

-- The request holds one retained reference, on this resource.
pub record HoldsOnly (W T Q : Type 0) (id : ℕ) (r : Pointer) (s : Loop W T Q) : Type 0 where
  pub deps : (s.requests r).deps ≡ id ∷ []
  pub retained : (s.requests r).deps_retained ≡ true

published-failed :
    (cleanup : Option Pointer) (n : Node)
    → n.refcnt ≡ pos 2
    → n.auto_release_owner ≡ true
    → let n' = published none cleanup n in
      (n'.refcnt ≡ pos 2) × (n'.auto_release_owner ≡ true) × (n'.blocked ≡ []) × (n'.failed ≡ true)
unfolding published
published-failed cleanup n two auto = ground arith

module _ {W T Q : Type 0} ⦃t : Table ℕ Node T⦄ (laws : IsTable ℕ Node T) where
  cleanup-holds :
      (id : ℕ) (r : Pointer) (s : Loop W T Q)
      → HoldsOnly W T Q id r s
      → HoldsOnly W T Q id r (request_cleanup r s)
  unfolding request_cleanup
  cleanup-holds id r s h = record { deps = ground arith; retained = ground arith }

  failure-holds :
      (id : ℕ) (r : Pointer) (s : Loop W T Q)
      → HoldsOnly W T Q id r s
      → HoldsOnly W T Q id r (call_on_failure (s.requests r).on_failure r s)
  failure-holds id r s h = record { deps = ground arith; retained = ground arith }

  -- The last reference beside the owner's goes, and the owner's with it.
  release_dep-frees :
      (id : ℕ) (n : Node) (s : Loop W T Q)
      → node_of id s ≡ some n
      → n.refcnt ≡ pos 2
      → n.auto_release_owner ≡ true
      → n.blocked ≡ []
      → node_of id (release_dep id s) ≡ none
  unfolding release_dep
  release_dep-frees id n s e two auto free =
      let n' : Node = record n { refcnt = pos 1 } in
      ground (
        arith,
        laws.find-store id id n' s.resources,
        (laws.same_iff id id).1 refl,
        laws.find-erase id id (t.store id n' s.resources),
      )

  let_go-frees :
      (id : ℕ) (r : Pointer) (n : Node) (s : Loop W T Q)
      → HoldsOnly W T Q id r s
      → node_of id s ≡ some n
      → n.refcnt ≡ pos 2
      → n.auto_release_owner ≡ true
      → n.blocked ≡ []
      → node_of id (let_go r s) ≡ none
  unfolding let_go release_request_deps
  let_go-frees id r n s h e two auto free =
      rw (h.retained, h.deps) (release_dep-frees id n s e two auto free)

  fail_waiter-frees :
      (id : ℕ) (r : Pointer) (n : Node) (s : Loop W T Q)
      → HoldsOnly W T Q id r s
      → node_of id s ≡ some n
      → n.refcnt ≡ pos 2
      → n.auto_release_owner ≡ true
      → n.blocked ≡ []
      → node_of id (fail_waiter r s) ≡ none
  unfolding fail_waiter
  fail_waiter-frees id r n s h e two auto free =
      let s₀ = call_on_failure (s.requests r).on_failure r s in
      let s₁ = request_cleanup r s₀ in
      let same : s₁.resources ≡ s.resources =
        resources-request_cleanup r s₀ ∙ resources-call_on_failure r s in
      ap (t.find id) (resources-request_destroy r s₀)
      ∙ let_go-frees id r n s₁ (cleanup-holds id r s₀ (failure-holds id r s h))
          (ap (t.find id) same ∙ e) two auto free

  publish-found :
      (id : ℕ) (cleanup : Option Pointer) (n : Node) (s : Loop W T Q)
      → node_of id s ≡ some n
      → publish id none cleanup s
        ≡ wake_waiters id n.blocked
            (write_node id (published none cleanup n) (run_cleanup n.cleanup n.payload s))
  unfolding publish
  publish-found id cleanup n s e =
      ap
        (λ o. wake_waiters id (or_placeholder o).blocked (
          write_node id (published none cleanup (or_placeholder o))
            (run_cleanup (or_placeholder o).cleanup (or_placeholder o).payload s)))
        e

  wake-freed :
      (id : ℕ) (r₁ r₂ : Pointer) (rs : List Pointer) (s : Loop W T Q) (n : Node)
      → node_of id s ≡ some n
      → n.failed ≡ true
      → node_of id (fail_waiter r₁ s) ≡ none
      → wake_waiters id (r₁ ∷ r₂ ∷ rs) s ≡ none
  unfolding wake_waiters
  wake-freed id r₁ r₂ rs s n found bad gone =
      rw (found, wake_waiters, bad) (rw (gone, wake_waiters))

  clean-holds :
      (id : ℕ) (r : Pointer) (cleanup : Option Pointer) (n : Node) (s : Loop W T Q)
      → HoldsOnly W T Q id r s
      → HoldsOnly W T Q id r
          (write_node id (published none cleanup n) (run_cleanup n.cleanup n.payload s))
  clean-holds id r cleanup n s h = record { deps = ground arith; retained = ground arith }

  -- Two requests wait on a resource that releases its owner by itself and has just two references
  -- left, and the first of them holds one. When the resource then fails, the end of that first
  -- request frees the node, and the publication reads it again for the second.
  pub failure_reads_freed_node :
      (id : ℕ) (cleanup : Option Pointer) (n : Node) (r₁ r₂ : Pointer) (rs : List Pointer)
      (s : Loop W T Q)
      → node_of id s ≡ some n
      → n.blocked ≡ r₁ ∷ r₂ ∷ rs
      → n.refcnt ≡ pos 2
      → n.auto_release_owner ≡ true
      → HoldsOnly W T Q id r₁ s
      → publish id none cleanup s ≡ none
  failure_reads_freed_node id cleanup n r₁ r₂ rs s e waiters two auto h =
      let n' = published none cleanup n in
      let s₀ = run_cleanup n.cleanup n.payload s in
      let s₁ = write_node id n' s₀ in
      let (two', auto', free, bad) = published-failed cleanup n two auto in
      let found : node_of id s₁ ≡ some n' =
        laws.find-store id id n' s₀.resources ∙ rw ((laws.same_iff id id).1 refl) in
      let gone =
        fail_waiter-frees id r₁ n' s₁ (clean-holds id r₁ cleanup n s h) found two' auto' free in
      publish-found id cleanup n s e
      ∙ (ap (λ ws. wake_waiters id ws s₁) waiters ∙ wake-freed id r₁ r₂ rs s₁ n' found bad gone)
