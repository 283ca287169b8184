-- ===== src/Resource/Conservation.antt =====
-- The balance of payloads under publication, the inbox and the teardown.
use a_curl_library.Base.{
  ℕ, ◌+◌, ◌≡◌, refl, ap, ◌∙◌, Option, none, some, List, [], ◌∷◌, arith, Bool-cases, Option-cases,
  inl, inr,
}
use a_curl_library.External.Table.{Table, IsTable, weight}
use a_curl_library.Request.{Pointer}
use a_curl_library.Loop.{Node, Loop, Op, register, publish, release}
use a_curl_library.Resource.Refs.{or_placeholder, node_of, write_node, run_cleanup}
use a_curl_library.Resource.Publish
use a_curl_library.Resource.Publish.{fail_waiter, requeue_pending, wake_waiters, published}
use a_curl_library.Resource.Inbox.{apply_op, apply_ops}
use a_curl_library.Resource.Teardown.{fail_waiters, finish_node}
use a_curl_library.Resource.Balance.{
  is_pair, owns, balance, balance-write, balance-run_cleanup, balance-erase, balance-release,
  balance-request_destroy,
}

published-owns :
    (f p : Pointer) (payload cleanup : Option Pointer) (n : Node)
    → owns f p (published payload cleanup n) ≡ is_pair f p cleanup payload
unfolding published
published-owns f p payload cleanup n = refl

weight-owns : (f p : Pointer) (o : Option Node) → weight (owns f p) o ≡ owns f p (or_placeholder o)
weight-owns f p none = refl
weight-owns f p (some n) = refl

-- The payloads that a list of operations publishes with their cleanup.
abbrev pub published_by : Pointer → Pointer → List Op → ℕ
published_by f p [] = 0
published_by f p (register id payload cleanup ∷ ops) =
    is_pair f p cleanup payload + published_by f p ops
published_by f p (publish id payload cleanup ∷ ops) =
    is_pair f p cleanup payload + published_by f p ops
published_by f p (release id ∷ ops) = published_by f p ops

published_by-cons :
    (f p : Pointer) (op : Op) (ops : List Op)
    → published_by f p (op ∷ ops) ≡ published_by f p (op ∷ []) + published_by f p ops
published_by-cons f p (register id payload cleanup) ops = omega arith
published_by-cons f p (publish id payload cleanup) ops = omega arith
published_by-cons f p (release id) ops = omega arith

module _ {W T Q : Type 0} ⦃t : Table ℕ Node T⦄ (laws : IsTable ℕ Node T) (f p : Pointer) where
  balance-fail_waiter :
      (r : Pointer) (s : Loop W T Q) → balance f p (fail_waiter r s) ≡ balance f p s
  unfolding fail_waiter
  balance-fail_waiter r s = elim (Option-cases (s.requests r).on_failure) [
    | inl e ↦ rw e (balance-request_destroy laws f p r s)
    | inr (g, e) ↦ rw e (balance-request_destroy laws f p r _ ∙ unfold balance in refl)
  ]

  balance-requeue :
      (r : Pointer) (s : Loop W T Q) → balance f p (requeue_pending r s) ≡ balance f p s
  unfolding requeue_pending balance
  balance-requeue r s = refl

  balance-wake_waiters :
      (id : ℕ) (rs : List Pointer) (s s' : Loop W T Q)
      → wake_waiters id rs s ≡ some s'
      → balance f p s' ≡ balance f p s
  unfolding wake_waiters
  balance-wake_waiters id [] s s' e = ground arith
  balance-wake_waiters id (r ∷ rs) s s' e = elim (Option-cases (node_of id s)) [
    | inl x ↦ ground arith
    | inr (n, x) ↦ elim (Bool-cases n.failed) [
      | inl bad ↦
          ground (arith, balance-wake_waiters id rs (fail_waiter r s) s', balance-fail_waiter r s)
      | inr good ↦
          ground (arith, balance-wake_waiters id rs (requeue_pending r s) s', balance-requeue r s)
    ]
  ]

  pub run_cleanup-node_of :
      (id : ℕ) (c q : Option Pointer) (s : Loop W T Q)
      → node_of id (run_cleanup c q s) ≡ node_of id s
  run_cleanup-node_of id c q s = ground arith

  -- the write of `publish`, which cleans what the node held before
  balance-published :
      (id : ℕ) (payload cleanup : Option Pointer) (n : Node) (s : Loop W T Q)
      → or_placeholder (node_of id s) ≡ n
      → balance f p
          (write_node id (published payload cleanup n) (run_cleanup n.cleanup n.payload s))
        ≡ balance f p s + is_pair f p cleanup payload
  balance-published id payload cleanup n s e =
      let s₁ = run_cleanup n.cleanup n.payload s in
      omega (
        arith,
        balance-write laws f p id (published payload cleanup n) s₁,
        published-owns f p payload cleanup n,
        balance-run_cleanup laws f p n.cleanup n.payload s,
        ap (weight (owns f p)) (run_cleanup-node_of id n.cleanup n.payload s),
        weight-owns f p (node_of id s) ∙ ap (owns f p) e,
      )

  -- Publishing adds the new payload to the balance, and nothing else.
  pub balance-publish :
      (id : ℕ) (payload cleanup : Option Pointer) (s s' : Loop W T Q)
      → Publish.publish id payload cleanup s ≡ some s'
      → balance f p s' ≡ balance f p s + is_pair f p cleanup payload
  unfolding Publish.publish
  balance-publish id payload cleanup s s' e =
      let n = or_placeholder (node_of id s) in
      let s₁ = write_node id (published payload cleanup n) (run_cleanup n.cleanup n.payload s) in
      balance-wake_waiters id n.blocked s₁ s' e ∙ balance-published id payload cleanup n s refl

  balance-apply_op :
      (op : Op) (s s' : Loop W T Q)
      → apply_op op s ≡ some s'
      → balance f p s' ≡ balance f p s + published_by f p (op ∷ [])
  unfolding apply_op
  balance-apply_op (register id payload cleanup) s s' e =
      omega (arith, balance-publish id payload cleanup s s' e)
  balance-apply_op (publish id payload cleanup) s s' e =
      omega (arith, balance-publish id payload cleanup s s' e)
  balance-apply_op (release id) s s' e = ground (arith, balance-release laws f p id s)

  -- Through any operations on resources, in any order: the calls of `f(p)` and the nodes that hold
  -- `p` to be cleaned by `f` grow together by the publications of that pair. So no payload is cleaned
  -- twice for one publication, and none is forgotten.
  pub balance-apply_ops :
      (ops : List Op) (s s' : Loop W T Q)
      → apply_ops ops s ≡ some s'
      → balance f p s' ≡ balance f p s + published_by f p ops
  unfolding apply_ops
  balance-apply_ops [] s s' e = ground arith
  balance-apply_ops (op ∷ ops) s s' e = elim (Option-cases (apply_op op s)) [
    | inl x ↦ ground arith
    | inr (s₁, x) ↦ ground (
      arith,
      balance-apply_ops ops s₁ s',
      balance-apply_op op s s₁ x,
      published_by-cons f p op ops,
    )
  ]

  pub balance-fail_waiters :
      (rs : List Pointer) (s : Loop W T Q) → balance f p (fail_waiters rs s) ≡ balance f p s
  unfolding fail_waiters
  balance-fail_waiters [] s = refl
  balance-fail_waiters (r ∷ rs) s =
      balance-fail_waiters rs (fail_waiter r s) ∙ balance-fail_waiter r s

  pub balance-finish_node :
      (id : ℕ) (n : Node) (s : Loop W T Q)
      → node_of id s ≡ some n
      → (s' : Loop W T Q) → finish_node id (some n) s ≡ some s'
      → balance f p s' ≡ balance f p s
  unfolding finish_node
  balance-finish_node id n s e s' x =
      let s₁ = run_cleanup n.cleanup n.payload s in
      ground (
        arith,
        balance-run_cleanup laws f p n.cleanup n.payload s,
        run_cleanup-node_of id n.cleanup n.payload s,
        balance-erase laws f p id n s₁,
      )
