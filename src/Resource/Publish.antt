-- ===== src/Resource/Publish.antt =====
-- Publishing of src/curl_resource.c. A result `none` is a read of a node that has been freed: after a
-- waiter is destroyed the loop of `curl_event_res_publish` reads `n->failed` again.
use a_curl_library.Base.{
  ℕ, Bool, true, false, Option, none, some, List, [], ◌∷◌, pos, if◌then◌else◌,
}
use a_curl_library.External.Table.{Table}
use a_curl_library.Request.{Pointer}
use a_curl_library.Loop.{Node, Loop, aborted, emit}
use a_curl_library.Resource.Refs.{is_int, or_placeholder, node_of, write_node, run_cleanup, declare}
use a_curl_library.Resource.Lifecycle.{request_destroy}

is_none : Option Pointer → Bool
is_none none = true
is_none (some p) = false

-- the node behind the two ifs, with its waiters detached
unfoldable pub published : Option Pointer → Option Pointer → Node → Node
unfolding is_none
published payload cleanup n = record n {
  payload = payload;
  cleanup = cleanup;
  refcnt = if is_int 0 n.refcnt then pos 1 else n.refcnt;
  failed = is_none payload;
  blocked = [];
}

module _ {W T Q : Type 0} ⦃t : Table ℕ Node T⦄ where
  abbrev pub call_on_failure : Option Pointer → Pointer → Loop W T Q → Loop W T Q
  call_on_failure none r s = s
  call_on_failure (some f) r s = emit (aborted f r) s

  -- A waiter of a resource that failed, or that goes away.
  unfoldable pub fail_waiter : Pointer → Loop W T Q → Loop W T Q
  fail_waiter r s = request_destroy r (call_on_failure (s.requests r).on_failure r s)

  -- `requeue_pending`
  unfoldable pub requeue_pending : Pointer → Loop W T Q → Loop W T Q
  requeue_pending r s = record s { pending_requests = r ∷ s.pending_requests }

  -- The loop over the detached waiters.
  unfoldable pub wake_waiters : ℕ → List Pointer → Loop W T Q → Option (Loop W T Q)
  unfolding fail_waiter requeue_pending
  wake_waiters id [] s = some s
  wake_waiters id (r ∷ rs) s = elim (node_of id s) [
    | none ↦ none
    | some n ↦ wake_waiters id rs (if n.failed then fail_waiter r s else requeue_pending r s)
  ]

  -- `curl_event_res_publish`
  unfoldable pub publish : ℕ → Option Pointer → Option Pointer → Loop W T Q → Option (Loop W T Q)
  unfolding wake_waiters published
  publish id payload cleanup s =
      let n = or_placeholder (node_of id s) in
      wake_waiters id n.blocked
        (write_node id (published payload cleanup n) (run_cleanup n.cleanup n.payload s))

  -- `curl_event_res_register`
  unfoldable pub register_resource :
      Option Pointer → Option Pointer → Loop W T Q → Option (Loop W T Q × ℕ)
  unfolding publish declare
  register_resource payload cleanup s =
      let (s', id) = declare s in
      elim (publish id payload cleanup s') [ none ↦ none | some s'' ↦ some (s'', id) ]

  -- `curl_event_res_publish_str`; `copy` is what `aml_strdup` returns for a text, and `free` is
  -- `_aml_free`
  unfoldable pub publish_str :
      (copy : Option Pointer) (free : Pointer) → ℕ → Loop W T Q → Option (Loop W T Q)
  unfolding publish
  publish_str none free id s = publish id none none s
  publish_str (some p) free id s = publish id (some p) (some free) s
