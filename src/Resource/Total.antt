-- ===== src/Resource/Total.antt =====
-- Without automatic release: operations and teardown succeed, and every payload is cleaned.
use a_curl_library.Base.{
  ℕ, zero, suc, ◌+◌, ◌≡◌, ◌≢◌, refl, Option, none, some, List, [], ◌∷◌, arith, Option-cases, inl,
  inr,
}
use a_curl_library.External.Table.{Table, IsTable}
use a_curl_library.Request.{Pointer}
use a_curl_library.Loop.{Node, Loop, Op, register, publish, release}
use a_curl_library.Resource.Refs
use a_curl_library.Resource.Refs.{or_placeholder, node_of, write_node, run_cleanup}
use a_curl_library.Resource.Publish.{fail_waiter}
use a_curl_library.Resource.Inbox.{apply_op, apply_ops}
use a_curl_library.Resource.Teardown.{
  Torn, done, fault, fail_waiters, finish_node, tear_down, destroy_rounds, destroy_all,
}
use a_curl_library.Resource.Nodes.{
  Nodes, Nodes-write, Nodes-erase, Nodes-run_cleanup, Nodes-release, Nodes-fail_waiter,
}
use a_curl_library.Resource.Safety.{IsManual, IsThere, recount, IsThere-fail_waiter, publish_safe}
use a_curl_library.Resource.Balance.{cleans}
use a_curl_library.Resource.Conservation.{published_by}
use a_curl_library.Resource.Ending.{
  Ends, clean_end, faulty_end, destroy_all-Ends, cleaned_once, first-found,
}

module _ {W T Q : Type 0} ⦃t : Table ℕ Node T⦄ (laws : IsTable ℕ Node T) where
  op_safe :
      (op : Op) (s : Loop W T Q)
      → Nodes IsManual s
      → (s' : Loop W T Q) × (apply_op op s ≡ some s') × Nodes IsManual s'
  unfolding apply_op
  op_safe (register id payload cleanup) s m = publish_safe laws id payload cleanup s m
  op_safe (publish id payload cleanup) s m = publish_safe laws id payload cleanup s m
  op_safe (release id) s m = (Refs.release id s, refl, Nodes-release laws recount id s m)

  ops_safe :
      (ops : List Op) (s : Loop W T Q)
      → Nodes IsManual s
      → (s' : Loop W T Q) × (apply_ops ops s ≡ some s') × Nodes IsManual s'
  unfolding apply_ops
  ops_safe [] s m = (s, refl, m)
  ops_safe (op ∷ ops) s m =
      let (s₁, e₁, m₁) = op_safe op s m in
      let (s₂, e₂, m₂) = ops_safe ops s₁ m₁ in (s₂, rw (e₁, apply_ops) e₂, m₂)

  waiters_safe :
      (id : ℕ) (rs : List Pointer) (s : Loop W T Q)
      → Nodes IsManual s
      → IsThere id s
      → Nodes IsManual (fail_waiters rs s) × IsThere id (fail_waiters rs s)
  unfolding fail_waiters
  waiters_safe id [] s m h = (m, h)
  waiters_safe id (r ∷ rs) s m h =
      waiters_safe id rs (fail_waiter r s) (Nodes-fail_waiter laws recount r s m)
        (IsThere-fail_waiter laws id r s m h)

  finish_safe :
      (id : ℕ) (o : Option Node) (s : Loop W T Q)
      → o ≢ none
      → Nodes IsManual s
      → (s' : Loop W T Q) × (finish_node id o s ≡ some s') × Nodes IsManual s'
  unfolding finish_node
  finish_safe id none s h m = absurd (h refl)
  finish_safe id (some n) s h m =
      let s₁ = run_cleanup n.cleanup n.payload s in
      (
        record s₁ { resources = t.erase id s₁.resources },
        refl,
        Nodes-erase laws id s₁ (Nodes-run_cleanup laws n.cleanup n.payload s m),
      )

  tear_down_safe :
      (id : ℕ) (n : Node) (s : Loop W T Q)
      → node_of id s ≡ some n
      → Nodes IsManual s
      → (s' : Loop W T Q) × (tear_down id s ≡ some s') × Nodes IsManual s'
  unfolding tear_down
  tear_down_safe id n s e m =
      let n' : Node = record n { blocked = [] } in
      let s₁ = write_node id n' s in
      let (m₂, h₂) =
        waiters_safe id n.blocked s₁ (Nodes-write laws id n' s (m.at id n e) m) (written id n' s) in
      rw e (finish_safe id (node_of id (fail_waiters n.blocked s₁)) _ h₂ m₂)
    where
      written : (k : ℕ) (n : Node) (z : Loop W T Q) → IsThere k (write_node k n z)
      written k n z = ground (arith, laws.find-store k k n z.resources, (laws.same_iff k k).1)

  rounds_safe : (fuel : ℕ) (s : Loop W T Q) → Nodes IsManual s → destroy_rounds fuel s ≢ fault
  unfolding destroy_rounds
  rounds_safe zero s m = λ e. cc
  rounds_safe (suc fuel) s m = elim (Option-cases (t.first s.resources)) [
    | inl e ↦ rw (e, destroy_rounds) (λ x. cc)
    | inr (id, e) ↦
        let (n, found) = first-found laws id s e in
        let (s', x, m') = tear_down_safe id n s found m in
        rw (e, destroy_rounds, x) (rounds_safe fuel s' m')
  ]

  done_of_Ends :
      (s : Loop W T Q) (o : Torn (Loop W T Q))
      → Ends laws s o
      → o ≢ fault
      → (s' : Loop W T Q) × (o ≡ done s') × (s'.resources ≡ t.empty)
  done_of_Ends s o (clean_end {s'} gone count) safe = (s', refl, gone)
  done_of_Ends s o faulty_end safe = absurd (safe refl)

  -- If no node releases its owner by itself, the teardown comes to its end with no node left.
  pub destroy_all_safe :
      (s : Loop W T Q)
      → Nodes IsManual s
      → (s' : Loop W T Q) × (destroy_all s ≡ done s') × (s'.resources ≡ t.empty)
  unfolding destroy_all
  destroy_all_safe s m =
      done_of_Ends s (destroy_all s) (destroy_all-Ends laws s) (rounds_safe _ s m)

  Nodes-empty : (s : Loop W T Q) → t.first s.resources ≡ none → Nodes IsManual s
  Nodes-empty s e = record { at = λ id n x. cc (laws.first-none s.resources e id, x) }

  -- From a loop with no resources, any list of posted operations runs to its end and so does the
  -- teardown after it, no node is left, and each payload has then been cleaned by its cleanup exactly
  -- as often as the two were published together, beside what the log already had.
  pub every_payload_cleaned :
      (ops : List Op) (s : Loop W T Q)
      → t.first s.resources ≡ none
      → (s₁ : Loop W T Q) × (s₂ : Loop W T Q) × (apply_ops ops s ≡ some s₁)
        × (destroy_all s₁ ≡ done s₂)
        × (s₂.resources ≡ t.empty)
        × ((f p : Pointer) → cleans f p s₂.log ≡ cleans f p s.log + published_by f p ops)
  every_payload_cleaned ops s e =
      let (s₁, e₁, m₁) = ops_safe ops s (Nodes-empty s e) in
      let (s₂, e₂, gone) = destroy_all_safe s₁ m₁ in
      (s₁, s₂, e₁, e₂, gone, λ f p. cleaned_once laws f p ops s s₁ s₂ e e₁ e₂)
