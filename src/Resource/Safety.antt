-- ===== src/Resource/Safety.antt =====
-- Without automatic release no node is freed under a loop that still reads it.
use a_curl_library.Base.{
  ℕ, ◌≡◌, ◌≢◌, refl, sym, ap, ◌∙◌, false, Option, none, some, List, [], ◌∷◌, ℤ, arith, Bool-cases,
  Option-cases, inl, inr,
}
use a_curl_library.External.Table.{Table, IsTable}
use a_curl_library.Request.{Pointer}
use a_curl_library.Loop.{Node, Loop}
use a_curl_library.Resource.Refs.{
  or_placeholder, node_of, write_node, run_cleanup, release_dep, release_request_deps,
}
use a_curl_library.Resource.Lifecycle.{request_destroy, request_cleanup, let_go}
use a_curl_library.Resource.Untouched.{
  resources-request_cleanup, resources-request_destroy, resources-call_on_failure,
}
use a_curl_library.Resource.Publish
use a_curl_library.Resource.Publish.{fail_waiter, requeue_pending, wake_waiters, published}
use a_curl_library.Resource.Nodes.{
  Nodes, Nodes-same, Nodes-write, Nodes-run_cleanup, Nodes-release_dep, Nodes-fail_waiter,
  Nodes-publish,
}

-- The owner's reference of the node is not dropped by itself.
abbrev pub IsManual : Node → Type 0
IsManual n = n.auto_release_owner ≡ false

pub recount : (n : Node) (z : ℤ) → IsManual n → IsManual (record n { refcnt = z })
recount n z h = h

published-IsManual :
    (payload cleanup : Option Pointer) (n : Node)
    → IsManual n
    → IsManual (published payload cleanup n)
unfolding published
published-IsManual payload cleanup n h = h

module _ {W T Q : Type 0} ⦃t : Table ℕ Node T⦄ where
  abbrev pub IsThere : ℕ → Loop W T Q → Type 0
  IsThere j s = node_of j s ≢ none

  module _ (laws : IsTable ℕ Node T) where
    or_placeholder-IsManual :
        (id : ℕ) (s : Loop W T Q) → Nodes IsManual s → IsManual (or_placeholder (node_of id s))
    or_placeholder-IsManual id s h = elim (Option-cases (node_of id s)) [
      | inl e ↦ ground arith
      | inr (n, e) ↦ ground (arith, h.at id n e)
    ]

    IsThere-write :
        (j id : ℕ) (n : Node) (s : Loop W T Q) → IsThere j s → IsThere j (write_node id n s)
    IsThere-write j id n s h = ground (arith, laws.find-store j id n s.resources)

    IsThere-release_dep :
        (j d : ℕ) (s : Loop W T Q) → Nodes IsManual s → IsThere j s → IsThere j (release_dep d s)
    unfolding release_dep
    IsThere-release_dep j d s m h = elim (Option-cases (node_of d s)) [
      | inl e ↦ rw (e, release_dep) h
      | inr (n, e) ↦ rw (e, release_dep, m.at d n e) (IsThere-write j d _ s h)
    ]

    IsThere-release_request_deps :
        (j : ℕ) (ds : List ℕ) (s : Loop W T Q)
        → Nodes IsManual s
        → IsThere j s
        → IsThere j (release_request_deps ds s)
    unfolding release_request_deps
    IsThere-release_request_deps j [] s m h = h
    IsThere-release_request_deps j (d ∷ ds) s m h =
        IsThere-release_request_deps j ds (release_dep d s) (Nodes-release_dep laws recount d s m)
          (IsThere-release_dep j d s m h)

    IsThere-let_go :
        (j : ℕ) (r : Pointer) (s : Loop W T Q)
        → Nodes IsManual s
        → IsThere j s
        → IsThere j (let_go r s)
    unfolding let_go
    IsThere-let_go j r s m h = elim (Bool-cases (s.requests r).deps_retained) [
      | inl e ↦ rw e (IsThere-release_request_deps j (s.requests r).deps s m h)
      | inr e ↦ rw e h
    ]

    IsThere-same :
        (j : ℕ) (s s' : Loop W T Q) → s'.resources ≡ s.resources → IsThere j s → IsThere j s'
    IsThere-same j s s' e h = λ x. h (sym (ap (t.find j) e) ∙ x)

    pub IsThere-fail_waiter :
        (j : ℕ) (r : Pointer) (s : Loop W T Q)
        → Nodes IsManual s
        → IsThere j s
        → IsThere j (fail_waiter r s)
    unfolding fail_waiter
    IsThere-fail_waiter j r s m h =
        let s₀ = Publish.call_on_failure (s.requests r).on_failure r s in
        let s₁ = request_cleanup r s₀ in
        let same : s₁.resources ≡ s.resources =
          resources-request_cleanup r s₀ ∙ resources-call_on_failure r s in
        IsThere-same j (let_go r s₁) (request_destroy r s₀) (resources-request_destroy r s₀)
          (IsThere-let_go j r s₁ (Nodes-same laws s s₁ same m) (IsThere-same j s s₁ same h))

    wake_safe :
        (id : ℕ) (rs : List Pointer) (s : Loop W T Q)
        → Nodes IsManual s
        → IsThere id s
        → (s' : Loop W T Q) × (wake_waiters id rs s ≡ some s')
    unfolding wake_waiters
    wake_safe id [] s m h = (s, refl)
    wake_safe id (r ∷ rs) s m h = elim (Option-cases (node_of id s)) [
      | inl x ↦ absurd (h x)
      | inr (n, x) ↦ elim (Bool-cases n.failed) [
        | inl bad ↦
            let (s', e) =
              wake_safe id rs (fail_waiter r s) (Nodes-fail_waiter laws recount r s m)
                (IsThere-fail_waiter id r s m h) in
            (s', rw (x, wake_waiters, bad) e)
        | inr good ↦
            let s₁ = requeue_pending r s in
            let same : s₁.resources ≡ s.resources = unfold requeue_pending in refl in
            let (s', e) =
              wake_safe id rs s₁ (Nodes-same laws s s₁ same m) (IsThere-same id s s₁ same h) in
            (s', rw (x, wake_waiters, good) e)
      ]
    ]

    -- If no node releases its owner by itself, a publication, also of a failure that ends all its
    -- waiters, reads no freed node, and no node has begun to release by itself.
    pub publish_safe :
        (id : ℕ) (payload cleanup : Option Pointer) (s : Loop W T Q)
        → Nodes IsManual s
        → (s' : Loop W T Q) × (Publish.publish id payload cleanup s ≡ some s') × Nodes IsManual s'
    unfolding Publish.publish
    publish_safe id payload cleanup s m =
        let n = or_placeholder (node_of id s) in
        let n' = published payload cleanup n in
        let new = published-IsManual payload cleanup n (or_placeholder-IsManual id s m) in
        let s₀ = run_cleanup n.cleanup n.payload s in
        let s₁ = write_node id n' s₀ in
        let (s', e) =
          wake_safe id n.blocked s₁
            (Nodes-write laws id n' s₀ new (Nodes-run_cleanup laws n.cleanup n.payload s m))
            (written id n' s₀) in
        (s', e, Nodes-publish laws recount id payload cleanup s s' new e m)
      where
        written : (k : ℕ) (n : Node) (z : Loop W T Q) → IsThere k (write_node k n z)
        written k n z = ground (arith, laws.find-store k k n z.resources, (laws.same_iff k k).1)
