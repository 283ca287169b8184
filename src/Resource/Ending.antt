-- ===== src/Resource/Ending.antt =====
-- The teardown of the resources comes to an end, and with it every payload has been cleaned.
use a_curl_library.Base.{
  ℕ, zero, suc, ◌+◌, ◌<◌, ◌≡◌, refl, ◌∙◌, Option, none, some, List, [], arith, Option-cases, inl,
  inr,
}
use a_curl_library.External.Table.{Table, IsTable}
use a_curl_library.Request.{Pointer}
use a_curl_library.Loop.{Node, Loop, Op}
use a_curl_library.Resource.Refs.{node_of, write_node, run_cleanup}
use a_curl_library.Resource.Inbox.{apply_ops}
use a_curl_library.Resource.Teardown.{
  Torn, done, fault, fail_waiters, finish_node, tear_down, destroy_rounds, destroy_all,
}
use a_curl_library.Resource.Balance.{owns, cleans, balance, balance-rewrite}
use a_curl_library.Resource.Conservation.{
  published_by, balance-apply_ops, balance-fail_waiters, balance-finish_node, run_cleanup-node_of,
}
use a_curl_library.Resource.Size.{size, size-write, size-run_cleanup, size-erase, size-fail_waiters}

module _ {W T Q : Type 0} ⦃t : Table ℕ Node T⦄ (laws : IsTable ℕ Node T) where
  finish_node-effect :
      (id : ℕ) (o : Option Node) (s s' : Loop W T Q)
      → node_of id s ≡ o
      → finish_node id o s ≡ some s'
      → (size s' + 1 ≡ size s) × ((f p : Pointer) → balance f p s' ≡ balance f p s)
  unfolding finish_node
  finish_node-effect id none s s' e x = cc
  finish_node-effect id (some n) s s' e x = (
    ground (
      arith,
      size-run_cleanup laws n.cleanup n.payload s,
      run_cleanup-node_of laws 0 0 id n.cleanup n.payload s,
      size-erase laws id n (run_cleanup n.cleanup n.payload s),
    ),
    λ f p. balance-finish_node laws f p id n s e s' x,
  )

  -- One round takes one node away, and keeps what is held and what was cleaned in balance.
  tear_down-effect :
      (id : ℕ) (n : Node) (s s' : Loop W T Q)
      → node_of id s ≡ some n
      → tear_down id s ≡ some s'
      → (size s' < size s) × ((f p : Pointer) → balance f p s' ≡ balance f p s)
  unfolding tear_down
  tear_down-effect id n s s' e x =
      let n' : Node = record n { blocked = [] } in
      let s₁ = write_node id n' s in
      let s₂ = fail_waiters n.blocked s₁ in
      let (less, same) = finish_node-effect id (node_of id s₂) s₂ s' refl (rw e at x) in
      (
        omega (arith, less, size-fail_waiters laws n.blocked s₁, size-write laws id n n' s e),
        λ f p.
            same f p
            ∙ (balance-fail_waiters laws f p n.blocked s₁
                ∙ balance-rewrite laws f p id n n' s e refl),
      )

  -- What the teardown promises of its outcome.
  pub data Ends (s : Loop W T Q) : Torn (Loop W T Q) → Type 0 where
    clean_end :
        {s' : Loop W T Q}
        → s'.resources ≡ t.empty
        → ((f p : Pointer) → cleans f p s'.log ≡ balance f p s)
        → Ends s (done s')
    faulty_end : Ends s fault

  pub first-found :
      (id : ℕ) (s : Loop W T Q)
      → t.first s.resources ≡ some id
      → (n : Node) × (node_of id s ≡ some n)
  first-found id s e = elim (Option-cases (node_of id s)) [
    | inl x ↦ absurd (laws.first-some s.resources id e x)
    | inr found ↦ found
  ]

  Ends-back :
      (s s' : Loop W T Q) {o : Torn (Loop W T Q)}
      → ((f p : Pointer) → balance f p s' ≡ balance f p s)
      → Ends s' o
      → Ends s o
  Ends-back s s' same (clean_end gone count) = clean_end gone (λ f p. count f p ∙ same f p)
  Ends-back s s' same faulty_end = faulty_end

  balance-empty :
      (s : Loop W T Q)
      → t.first s.resources ≡ none
      → (f p : Pointer) → cleans f p s.log ≡ balance f p s
  unfolding balance
  balance-empty s e f p = omega (arith, laws.total-first (owns f p) s.resources e)

  rounds_end : (fuel : ℕ) (s : Loop W T Q) → size s < fuel → Ends s (destroy_rounds fuel s)
  unfolding destroy_rounds
  rounds_end zero s h = absurd (omega arith)
  rounds_end (suc fuel) s h = elim (Option-cases (t.first s.resources)) [
    | inl e ↦ rw (e, destroy_rounds) (clean_end refl (balance-empty s e))
    | inr (id, e) ↦ elim (Option-cases (tear_down id s)) [
      | inl x ↦ rw (e, destroy_rounds, x) faulty_end
      | inr (s', x) ↦
          let (n, found) = first-found id s e in
          let (less, same) = tear_down-effect id n s s' found x in
          rw (e, destroy_rounds, x) (Ends-back s s' same (rounds_end fuel s' (omega (arith, less))))
    ]
  ]

  -- `curl_resource_destroy_all` always ends: either it reads a node that the end of a waiter has
  -- freed, or no node is left and `f(p)` has been called, in all, as often as it had been before and
  -- once more for each node that held `p` to be cleaned by `f`.
  pub destroy_all-Ends : (s : Loop W T Q) → Ends s (destroy_all s)
  unfolding destroy_all
  destroy_all-Ends s = rounds_end (t.total (λ _. 1) s.resources + 1) s (unfold size in omega arith)

  Ends-clean :
      (s s' : Loop W T Q) (o : Torn (Loop W T Q))
      → Ends s o
      → o ≡ done s'
      → (f p : Pointer) → cleans f p s'.log ≡ balance f p s
  Ends-clean s s' o (clean_end gone count) e f p = ground (arith, count f p)
  Ends-clean s s' o faulty_end e f p = cc

  -- Whatever operations run on a loop with no resources, then the teardown: if neither reads freed
  -- memory, each payload was cleaned by its cleanup exactly as often as the two were published
  -- together, beside what the log already had.
  pub cleaned_once :
      (f p : Pointer) (ops : List Op) (s s₁ s₂ : Loop W T Q)
      → t.first s.resources ≡ none
      → apply_ops ops s ≡ some s₁
      → destroy_all s₁ ≡ done s₂
      → cleans f p s₂.log ≡ cleans f p s.log + published_by f p ops
  cleaned_once f p ops s s₁ s₂ none_yet e₁ e₂ = omega (
    arith,
    Ends-clean s₁ s₂ (destroy_all s₁) (destroy_all-Ends s₁) e₂ f p,
    balance-apply_ops laws f p ops s s₁ e₁,
    balance-empty s none_yet f p,
  )
