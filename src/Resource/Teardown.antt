-- ===== src/Resource/Teardown.antt =====
-- `curl_resource_destroy_all` of src/curl_resource.c.
use a_curl_library.Base.{ℕ, zero, suc, ◌+◌, Option, none, some, List, [], ◌∷◌}
use a_curl_library.External.Table.{Table}
use a_curl_library.Request.{Pointer}
use a_curl_library.Loop.{Node, Loop}
use a_curl_library.Resource.Refs.{or_placeholder, node_of, write_node, run_cleanup}
use a_curl_library.Resource.Publish.{fail_waiter}

-- How the teardown ends: `fault` is a read of a node that a waiter's end has freed.
pub data Torn (S : Type 0) : Type 0 where
  done : S → Torn S
  fault : Torn S
  out_of_fuel : Torn S

module _ {W T Q : Type 0} ⦃t : Table ℕ Node T⦄ where
  unfoldable pub fail_waiters : List Pointer → Loop W T Q → Loop W T Q
  fail_waiters [] s = s
  fail_waiters (r ∷ rs) s = fail_waiters rs (fail_waiter r s)

  -- the rest of the round, behind the waiters
  unfoldable pub finish_node : ℕ → Option Node → Loop W T Q → Option (Loop W T Q)
  finish_node id none s = none
  finish_node id (some n) s =
      let s' = run_cleanup n.cleanup n.payload s in
      some (record s' { resources = t.erase id s'.resources })

  -- one round, for the first node
  unfoldable pub tear_down : ℕ → Loop W T Q → Option (Loop W T Q)
  unfolding fail_waiters finish_node
  tear_down id s =
      let n = or_placeholder (node_of id s) in
      let s' = fail_waiters n.blocked (write_node id (record n { blocked = [] }) s) in
      finish_node id (node_of id s') s'

  unfoldable pub destroy_rounds : ℕ → Loop W T Q → Torn (Loop W T Q)
  unfolding tear_down
  destroy_rounds zero s = out_of_fuel
  destroy_rounds (suc fuel) s = elim (t.first s.resources) [
    | none ↦ done (record s { resources = t.empty })
    | some id ↦ elim (tear_down id s) [ none ↦ fault | some s' ↦ destroy_rounds fuel s' ]
  ]

  -- One round for each node, and the test that ends the loop.
  unfoldable pub destroy_all : Loop W T Q → Torn (Loop W T Q)
  unfolding destroy_rounds
  destroy_all s = destroy_rounds (t.total (λ _. 1) s.resources + 1) s
