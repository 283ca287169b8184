-- ===== src/Resource/Nodes.antt =====
-- Properties of all nodes that do not depend on reference counts: what ends a request or a reference
-- keeps them.
use a_curl_library.Base.{
  ℕ, ◌≡◌, refl, sym, ap, ◌∙◌, ◌&&◌, Option, some, List, [], ◌∷◌, ℤ, pos, ◌-ℤ◌, ltb_ℤ, arith,
  if◌then◌else◌, Bool-cases, Option-cases, inl, inr,
}
use a_curl_library.External.Table.{Table, IsTable}
use a_curl_library.Request.{Pointer}
use a_curl_library.Loop.{Node, Loop}
use a_curl_library.Resource.Refs
use a_curl_library.Resource.Refs.{
  is_int, is_empty, placeholder, or_placeholder, node_of, write_node, run_cleanup, drop_ref,
  release_dep, release_request_deps,
}
use a_curl_library.Resource.Lifecycle.{request_destroy, request_cleanup, let_go}
use a_curl_library.Resource.Untouched.{
  resources-request_cleanup, resources-request_destroy, resources-call_on_failure,
}
use a_curl_library.Resource.Publish
use a_curl_library.Resource.Publish.{fail_waiter, requeue_pending, wake_waiters, published}

module _ {W T Q : Type 0} ⦃t : Table ℕ Node T⦄ where
  pub record Nodes (P : Node → Type 0) (s : Loop W T Q) : Type 0 where
    pub at : (id : ℕ) (n : Node) → node_of id s ≡ some n → P n

  module _ (laws : IsTable ℕ Node T) {P : Node → Type 0} where
    -- The table is all that counts.
    pub Nodes-same : (s s' : Loop W T Q) → s'.resources ≡ s.resources → Nodes P s → Nodes P s'
    Nodes-same s s' e h = record { at = λ id n x. h.at id n (sym (ap (t.find id) e) ∙ x) }

    pub Nodes-write :
        (id : ℕ) (n : Node) (s : Loop W T Q) → P n → Nodes P s → Nodes P (write_node id n s)
    Nodes-write id n s p h = record {
      at = λ j m x. ground (arith, laws.find-store j id n s.resources, h.at j m);
    }

    pub Nodes-erase :
        (id : ℕ) (s : Loop W T Q)
        → Nodes P s
        → Nodes P (record s { resources = t.erase id s.resources })
    Nodes-erase id s h = record {
      at = λ j m x. ground (arith, laws.find-erase j id s.resources, h.at j m);
    }

    pub Nodes-run_cleanup :
        (c q : Option Pointer) (s : Loop W T Q) → Nodes P s → Nodes P (run_cleanup c q s)
    Nodes-run_cleanup c q s h = Nodes-same s (run_cleanup c q s) (ground arith) h

    module _ (recount : (n : Node) (z : ℤ) → P n → P (record n { refcnt = z })) where
      Nodes-drop_ref :
          (id : ℕ) (n : Node) (s : Loop W T Q)
          → node_of id s ≡ some n
          → Nodes P s
          → Nodes P (drop_ref id n s)
      unfolding drop_ref
      Nodes-drop_ref id n s e h = elim (Bool-cases (is_int 0 (n.refcnt -ℤ pos 1))) [
        | inl z ↦ rw z (Nodes-run_cleanup n.cleanup n.payload _ (Nodes-erase id s h))
        | inr z ↦ rw z (Nodes-write id _ s (recount n _ (h.at id n e)) h)
      ]

      pub Nodes-release : (id : ℕ) (s : Loop W T Q) → Nodes P s → Nodes P (Refs.release id s)
      unfolding Refs.release
      Nodes-release id s h = elim (Option-cases (node_of id s)) [
        | inl e ↦ rw (e, Refs.release) h
        | inr (n, e) ↦ rw (e, Refs.release) (Nodes-drop_ref id n s e h)
      ]

      pub Nodes-release_dep : (d : ℕ) (s : Loop W T Q) → Nodes P s → Nodes P (release_dep d s)
      unfolding release_dep
      Nodes-release_dep d s h = elim (Option-cases (node_of d s)) [
        | inl e ↦ rw (e, release_dep) h
        | inr (n, e) ↦
            let z : ℤ = if ltb_ℤ (pos 0) n.refcnt then n.refcnt -ℤ pos 1 else n.refcnt in
            let h' = Nodes-write d (record n { refcnt = z }) s (recount n z (h.at d n e)) h in
            rw (e, release_dep)
              (elim (Bool-cases (n.auto_release_owner && (is_int 1 z && is_empty n.blocked))) [
                | inl on ↦ rw on (Nodes-release d _ h')
                | inr off ↦ rw off h'
              ])
      ]

      pub Nodes-release_request_deps :
          (ds : List ℕ) (s : Loop W T Q) → Nodes P s → Nodes P (release_request_deps ds s)
      unfolding release_request_deps
      Nodes-release_request_deps [] s h = h
      Nodes-release_request_deps (d ∷ ds) s h =
          Nodes-release_request_deps ds (release_dep d s) (Nodes-release_dep d s h)

      Nodes-let_go : (r : Pointer) (s : Loop W T Q) → Nodes P s → Nodes P (let_go r s)
      unfolding let_go
      Nodes-let_go r s h = elim (Bool-cases (s.requests r).deps_retained) [
        | inl e ↦ rw e (
            Nodes-same (release_request_deps (s.requests r).deps s) _ refl
              (Nodes-release_request_deps (s.requests r).deps s h))
        | inr e ↦ rw e h
      ]

      pub Nodes-request_destroy :
          (r : Pointer) (s : Loop W T Q) → Nodes P s → Nodes P (request_destroy r s)
      Nodes-request_destroy r s h =
          Nodes-same (let_go r (request_cleanup r s)) _ (resources-request_destroy r s) (
            Nodes-let_go r (request_cleanup r s) (Nodes-same s _ (resources-request_cleanup r s) h))

      pub Nodes-fail_waiter : (r : Pointer) (s : Loop W T Q) → Nodes P s → Nodes P (fail_waiter r s)
      unfolding fail_waiter
      Nodes-fail_waiter r s h =
          Nodes-request_destroy r _ (Nodes-same s _ (resources-call_on_failure r s) h)

      Nodes-wake_waiters :
          (id : ℕ) (rs : List Pointer) (s s' : Loop W T Q)
          → wake_waiters id rs s ≡ some s'
          → Nodes P s
          → Nodes P s'
      unfolding wake_waiters
      Nodes-wake_waiters id [] s s' e h = Nodes-same s s' (ground arith) h
      Nodes-wake_waiters id (r ∷ rs) s s' e h = elim (Option-cases (node_of id s)) [
        | inl x ↦ cc (rw (x, wake_waiters) at e)
        | inr (n, x) ↦ elim (Bool-cases n.failed) [
          | inl bad ↦
              Nodes-wake_waiters id rs (fail_waiter r s) s' (ground arith) (Nodes-fail_waiter r s h)
          | inr good ↦
              Nodes-wake_waiters id rs (requeue_pending r s) s' (ground arith)
                (Nodes-same s _ (unfold requeue_pending in refl) h)
        ]
      ]

      -- Publishing keeps a property that a node has when it is published.
      pub Nodes-publish :
          (id : ℕ) (payload cleanup : Option Pointer) (s s' : Loop W T Q)
          → P (published payload cleanup (or_placeholder (node_of id s)))
          → Publish.publish id payload cleanup s ≡ some s'
          → Nodes P s
          → Nodes P s'
      unfolding Publish.publish
      Nodes-publish id payload cleanup s s' new e h =
          let n = or_placeholder (node_of id s) in
          Nodes-wake_waiters id n.blocked _ s' e
            (Nodes-write id _ _ new (Nodes-run_cleanup n.cleanup n.payload s h))
