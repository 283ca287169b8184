-- ===== src/Resource/Blocking.antt =====
-- The scheduler's helpers of src/curl_resource.c: a request waits on its first unmet dependency.
use a_curl_library.Base.{
  ℕ, Bool, true, false, Option, none, some, List, [], ◌∷◌, ◌++◌, if◌then◌else◌,
}
use a_curl_library.External.Table.{Table}
use a_curl_library.Request.{Pointer}
use a_curl_library.Loop.{Node, Loop}
use a_curl_library.Resource.Refs.{is_unmet, or_placeholder, node_of, write_node}

-- `block_request_on_res`: at the tail
abbrev pub block_on_node : Pointer → Node → Node
block_on_node r n = record n { blocked = n.blocked ++ r ∷ [] }

abbrev pub is_ready : Option Node → Bool
is_ready none = false
is_ready (some n) = if is_unmet n then false else true

module _ {W T Q : Type 0} ⦃t : Table ℕ Node T⦄ where
  -- `curl_resource_block_on_id`; the placeholder stays in the map in any case
  unfoldable pub block_on_id : Pointer → ℕ → Loop W T Q → Loop W T Q × Bool
  block_on_id r id s =
      let n = or_placeholder (node_of id s) in
      if is_unmet n then (write_node id (block_on_node r n) s, true) else (write_node id n s, false)

  -- `curl_resource_check_and_block_list`
  unfoldable pub check_and_block_list : Pointer → List ℕ → Loop W T Q → Loop W T Q × Bool
  unfolding block_on_id
  check_and_block_list r [] s = (s, false)
  check_and_block_list r (d ∷ ds) s =
      let (s', blocked) = block_on_id r d s in
      let rest = check_and_block_list r ds s' in if blocked then (s', true) else rest

  -- `curl_resource_all_ready_list`
  unfoldable pub all_ready_list : List ℕ → Loop W T Q → Bool
  all_ready_list [] s = true
  all_ready_list (d ∷ ds) s = if is_ready (node_of d s) then all_ready_list ds s else false
