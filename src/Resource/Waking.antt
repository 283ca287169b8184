-- ===== src/Resource/Waking.antt =====
-- What a publication does to the requests that wait, and what a read of the resource then gives.
use mathlib.Core.List.{reverse_aux}
use a_curl_library.Base.{
  ℕ, ◌≡◌, ◌≢◌, refl, ap, ◌∙◌, true, false, All, Option, some, List, [], ◌∷◌, pos, arith,
  if◌then◌else◌,
}
use a_curl_library.External.Table.{Table, IsTable}
use a_curl_library.Request.{Pointer}
use a_curl_library.Loop.{Node, Loop}
use a_curl_library.Resource.Refs.{is_int, or_placeholder, node_of, write_node, run_cleanup, peek}
use a_curl_library.Resource.Publish.{requeue_pending, wake_waiters, published, publish}
use a_curl_library.Resource.Blocking.{all_ready_list}

published-good :
    (p : Pointer) (cleanup : Option Pointer) (n : Node)
    → (published (some p) cleanup n).failed ≡ false
unfolding published
published-good p cleanup n = refl

published-rest :
    (p : Pointer) (cleanup : Option Pointer) (n : Node)
    → ((published (some p) cleanup n).payload ≡ some p)
      × ((published (some p) cleanup n).blocked ≡ [])
unfolding published
published-rest p cleanup n = (refl, refl)

module _ {W T Q : Type 0} ⦃t : Table ℕ Node T⦄ where
  wake-requeues :
      (id : ℕ) (n : Node) (rs : List Pointer) (s : Loop W T Q)
      → node_of id s ≡ some n
      → n.failed ≡ false
      → wake_waiters id rs s
        ≡ some (record s { pending_requests = reverse_aux rs s.pending_requests })
  unfolding wake_waiters
  wake-requeues id n [] s e good = refl
  wake-requeues id n (r ∷ rs) s e good =
      rw (e, wake_waiters, good) (wake-requeues id n rs (requeue_pending r s) e good)

  -- Publishing a payload reads no freed node. It puts the waiters back on the pending list, the
  -- last to come first, cleans the old payload, ends nothing and writes no request: the state
  -- afterwards is the old one with this node, this pending list and this log.
  pub record Woken (id : ℕ) (p : Pointer) (cleanup : Option Pointer) (s s' : Loop W T Q)
      : Type 0 where
    pub requeued :
        s'.pending_requests ≡ reverse_aux (or_placeholder (node_of id s)).blocked s.pending_requests
    pub stored :
        let n = or_placeholder (node_of id s) in
        s'.resources
        ≡ t.store id
            (record n {
              payload = some p;
              cleanup = cleanup;
              refcnt = if is_int 0 n.refcnt then pos 1 else n.refcnt;
              failed = false;
              blocked = [];
            })
            s.resources
    pub untouched : s'.requests ≡ s.requests
    pub cleaned_old :
        s'.log
        ≡ (run_cleanup
            (or_placeholder (node_of id s)).cleanup
            (or_placeholder (node_of id s)).payload
            s).log

  module _ (laws : IsTable ℕ Node T) where
    node_of-write :
        (id j : ℕ) (n : Node) (s : Loop W T Q)
        → node_of j (write_node id n s) ≡ (if t.same j id then some n else node_of j s)
    node_of-write id j n s = laws.find-store j id n s.resources

    node_of-write_self :
        (id : ℕ) (n : Node) (s : Loop W T Q) → node_of id (write_node id n s) ≡ some n
    node_of-write_self id n s = node_of-write id id n s ∙ rw ((laws.same_iff id id).1 refl)

    publish-Woken :
        (id : ℕ) (p : Pointer) (cleanup : Option Pointer) (s : Loop W T Q)
        → (s' : Loop W T Q) × (publish id (some p) cleanup s ≡ some s') × Woken id p cleanup s s'
    unfolding publish
    publish-Woken id p cleanup s =
        let n = or_placeholder (node_of id s) in
        let n' = published (some p) cleanup n in
        let s₁ = write_node id n' (run_cleanup n.cleanup n.payload s) in
        (
          record s₁ { pending_requests = reverse_aux n.blocked s₁.pending_requests },
          wake-requeues id n' n.blocked s₁
              (node_of-write_self id n' (run_cleanup n.cleanup n.payload s))
              (published-good p cleanup n),
          record {
            requeued = ground arith;
            stored = ground arith;
            untouched = ground arith;
            cleaned_old = ground arith;
          },
        )

    alive-kept :
        (rs : List Pointer) (s s' : Loop W T Q)
        → s'.requests ≡ s.requests
        → All (λ r. (s.requests r).pool ≡ true) rs
        → All (λ r. (s'.requests r).pool ≡ true) rs
    alive-kept [] s s' same h = tt
    alive-kept (r ∷ rs) s s' same h = (ap (λ f. (f r).pool) same ∙ h.0, alive-kept rs s s' same h.1)

    -- Publishing a payload, where each request that waits on the resource is alive, reads no freed node.
    -- The waiters go back on the pending list, the last to come first, and are alive; the old payload
    -- is cleaned; the node has the new payload, no waiter and at least the owner's reference where it
    -- had none; no request is written.
    pub publish_wakes :
        (id : ℕ) (p : Pointer) (cleanup : Option Pointer) (s : Loop W T Q)
        → All (λ r. (s.requests r).pool ≡ true) (or_placeholder (node_of id s)).blocked
        → (s' : Loop W T Q) × (publish id (some p) cleanup s ≡ some s')
          × Woken id p cleanup s s'
          × All (λ r. (s'.requests r).pool ≡ true) (or_placeholder (node_of id s)).blocked
    publish_wakes id p cleanup s alive =
        let (s', e, w) = publish-Woken id p cleanup s in
        (s', e, w, alive-kept (or_placeholder (node_of id s)).blocked s s' w.untouched alive)

    Woken-node :
        (id : ℕ) (p : Pointer) (cleanup : Option Pointer) (s s' : Loop W T Q)
        → Woken id p cleanup s s'
        → node_of id s' ≡ some (published (some p) cleanup (or_placeholder (node_of id s)))
    unfolding published
    Woken-node id p cleanup s s' w =
        ap (t.find id) w.stored
        ∙ node_of-write_self id (published (some p) cleanup (or_placeholder (node_of id s))) s

    Woken-read :
        (id : ℕ) (p : Pointer) (cleanup : Option Pointer) (s s' : Loop W T Q)
        → Woken id p cleanup s s'
        → (peek id s' ≡ some p)
          × (all_ready_list (id ∷ []) s' ≡ true)
          × ((or_placeholder (node_of id s')).blocked ≡ [])
    unfolding peek all_ready_list
    Woken-read id p cleanup s s' w =
        let n = or_placeholder (node_of id s) in
        let found = Woken-node id p cleanup s s' w in
        let good = published-good p cleanup n in
        let rest = published-rest p cleanup n in
        (
          ground (arith, found, rest, good),
          ground (arith, found, rest, good),
          ground (arith, found, rest),
        )

    Woken-others :
        (id : ℕ) (p : Pointer) (cleanup : Option Pointer) (s s' : Loop W T Q)
        → Woken id p cleanup s s'
        → (j : ℕ) → j ≢ id
        → node_of j s' ≡ node_of j s
    unfolding published
    Woken-others id p cleanup s s' w j ne =
        let n' = published (some p) cleanup (or_placeholder (node_of id s)) in
        ap (t.find j) w.stored ∙ ground (arith, node_of-write id j n' s, (laws.same_iff j id).0)

    -- After a payload is published, and until the node is written again: reading the resource gives
    -- that payload, it counts as ready, nothing waits on it, and every other resource is as before.
    pub publish-peek :
        (id : ℕ) (p : Pointer) (cleanup : Option Pointer) (s : Loop W T Q)
        → (s' : Loop W T Q) × (publish id (some p) cleanup s ≡ some s')
          × (peek id s' ≡ some p)
          × (all_ready_list (id ∷ []) s' ≡ true)
          × ((or_placeholder (node_of id s')).blocked ≡ [])
          × ((j : ℕ) → j ≢ id → node_of j s' ≡ node_of j s)
    publish-peek id p cleanup s =
        let (s', e, w) = publish-Woken id p cleanup s in
        let (read, ready, free) = Woken-read id p cleanup s s' w in
        (s', e, read, ready, free, Woken-others id p cleanup s s' w)
