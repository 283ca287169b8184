-- ===== src/Resource/Size.antt =====
-- The number of resource nodes: what ends a request or a reference adds none.
use a_curl_library.Base.{
  ℕ, ◌+◌, ◌≤◌, ◌≡◌, ◌&&◌, Option, some, List, [], ◌∷◌, pos, ◌-ℤ◌, ltb_ℤ, arith, if◌then◌else◌,
  Bool-cases, Option-cases, inl, inr,
}
use a_curl_library.External.Table.{Table, IsTable}
use a_curl_library.Request.{Pointer}
use a_curl_library.Loop.{Node, Loop}
use a_curl_library.Resource.Refs
use a_curl_library.Resource.Refs.{
  is_int, is_empty, or_placeholder, node_of, write_node, run_cleanup, drop_ref, release_dep,
  release_request_deps, maybe_autorelease_owner,
}
use a_curl_library.Resource.Lifecycle.{
  request_destroy, request_cleanup, let_go, free_parts, free_pool,
}
use a_curl_library.Resource.Publish.{fail_waiter}
use a_curl_library.Resource.Teardown.{fail_waiters}

module _ {W T Q : Type 0} ⦃t : Table ℕ Node T⦄ where
  -- The nodes of the table.
  unfoldable pub size : Loop W T Q → ℕ
  size s = t.total (λ _. 1) s.resources

  module _ (laws : IsTable ℕ Node T) where
    pub size-write :
        (id : ℕ) (n n' : Node) (s : Loop W T Q)
        → node_of id s ≡ some n
        → size (write_node id n' s) ≡ size s
    unfolding size
    size-write id n n' s e = ground (arith, laws.total-store (λ _. 1) id n' s.resources)

    pub size-run_cleanup :
        (c q : Option Pointer) (s : Loop W T Q) → size (run_cleanup c q s) ≡ size s
    unfolding size
    size-run_cleanup c q s = ground arith

    pub size-erase :
        (id : ℕ) (n : Node) (s : Loop W T Q)
        → node_of id s ≡ some n
        → size (record s { resources = t.erase id s.resources }) + 1 ≡ size s
    unfolding size
    size-erase id n s e = ground (arith, laws.total-erase (λ _. 1) id s.resources)

    size-drop_ref :
        (id : ℕ) (n : Node) (s : Loop W T Q)
        → node_of id s ≡ some n
        → size (drop_ref id n s) ≤ size s
    unfolding drop_ref
    size-drop_ref id n s e = elim (Bool-cases (is_int 0 (n.refcnt -ℤ pos 1))) [
      | inl z ↦ rw z (
          omega (
            arith,
            size-run_cleanup n.cleanup n.payload (record s { resources = t.erase id s.resources }),
            size-erase id n s e,
          ))
      | inr z ↦ rw z (omega (arith, size-write id n (record n { refcnt = n.refcnt -ℤ pos 1 }) s e))
    ]

    size-release : (id : ℕ) (s : Loop W T Q) → size (Refs.release id s) ≤ size s
    unfolding Refs.release
    size-release id s = elim (Option-cases (node_of id s)) [
      | inl e ↦ rw (e, Refs.release) (omega arith)
      | inr (n, e) ↦ rw (e, Refs.release) (size-drop_ref id n s e)
    ]

    size-release_dep : (d : ℕ) (s : Loop W T Q) → size (release_dep d s) ≤ size s
    unfolding release_dep
    size-release_dep d s = elim (Option-cases (node_of d s)) [
      | inl e ↦ rw (e, release_dep) (omega arith)
      | inr (n, e) ↦
          let n' : Node = record n {
            refcnt = if ltb_ℤ (pos 0) n.refcnt then n.refcnt -ℤ pos 1 else n.refcnt;
          } in
          rw (e, release_dep)
            (elim (Bool-cases
              (n.auto_release_owner && (is_int 1 n'.refcnt && is_empty n.blocked))) [
                | inl z ↦
                    rw z (omega (arith, size-release d (write_node d n' s), size-write d n n' s e))
                | inr z ↦ rw z (omega (arith, size-write d n n' s e))
              ])
    ]

    size-release_request_deps :
        (ds : List ℕ) (s : Loop W T Q) → size (release_request_deps ds s) ≤ size s
    unfolding release_request_deps
    size-release_request_deps [] s = omega arith
    size-release_request_deps (d ∷ ds) s =
        omega (arith, size-release_request_deps ds (release_dep d s), size-release_dep d s)

    size-let_go : (r : Pointer) (s : Loop W T Q) → size (let_go r s) ≤ size s
    unfolding let_go
    size-let_go r s = elim (Bool-cases (s.requests r).deps_retained) [
      | inl e ↦ rw e (unfold size in size-release_request_deps (s.requests r).deps s)
      | inr e ↦ rw e (omega arith)
    ]

    size-request_cleanup : (r : Pointer) (s : Loop W T Q) → size (request_cleanup r s) ≡ size s
    unfolding size request_cleanup
    size-request_cleanup r s = ground arith

    size-free_parts : (r : Pointer) (s : Loop W T Q) → size (free_parts r s) ≡ size s
    unfolding size free_parts
    size-free_parts r s = ground arith

    size-free_pool : (r : Pointer) (s : Loop W T Q) → size (free_pool r s) ≡ size s
    unfolding size free_pool
    size-free_pool r s = ground arith

    size-request_destroy : (r : Pointer) (s : Loop W T Q) → size (request_destroy r s) ≤ size s
    unfolding request_destroy
    size-request_destroy r s =
        let s₁ = request_cleanup r s in
        let s₂ = let_go r s₁ in
        omega (
          arith,
          size-free_pool r (free_parts r s₂),
          size-free_parts r s₂,
          size-let_go r s₁,
          size-request_cleanup r s,
        )

    size-fail_waiter : (r : Pointer) (s : Loop W T Q) → size (fail_waiter r s) ≤ size s
    unfolding fail_waiter
    size-fail_waiter r s = elim (Option-cases (s.requests r).on_failure) [
      | inl e ↦ rw e (size-request_destroy r s)
      | inr (g, e) ↦ rw e (unfold size in size-request_destroy r _)
    ]

    pub size-fail_waiters : (rs : List Pointer) (s : Loop W T Q) → size (fail_waiters rs s) ≤ size s
    unfolding fail_waiters
    size-fail_waiters [] s = omega arith
    size-fail_waiters (r ∷ rs) s =
        omega (arith, size-fail_waiters rs (fail_waiter r s), size-fail_waiter r s)
