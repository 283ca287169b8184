-- ===== src/Resource/Inbox.antt =====
-- The cross-thread inbox of src/curl_resource.c. A push is the compare-and-swap that succeeds, and a
-- drain the exchange, so each is one step.
use a_curl_library.Base.{ℕ, ◌+◌, ◌%◌, ◌^◌, Option, none, some, List, [], ◌∷◌}
use a_curl_library.External.Table.{Table}
use a_curl_library.Request.{Pointer}
use a_curl_library.Loop.{Node, Loop, Op, register, publish, release, woken, emit}
use a_curl_library.Resource.Refs
use a_curl_library.Resource.Publish

module _ {W T Q : Type 0} where
  -- `inbox_push`
  abbrev pub inbox_push : Op → Loop W T Q → Loop W T Q
  inbox_push op s = record s { res_inbox = op ∷ s.res_inbox }

  -- `curl_event_loop_wake`
  abbrev pub wake : Loop W T Q → Loop W T Q
  wake = emit woken

  unfoldable pub register_async : Option Pointer → Option Pointer → Loop W T Q → Loop W T Q × ℕ
  register_async payload cleanup s = (
    wake (
        inbox_push (register s.next_id payload cleanup)
          (record s { next_id = (s.next_id + 1) % 2 ^ 64 })),
    s.next_id,
  )

  unfoldable pub publish_async : ℕ → Option Pointer → Option Pointer → Loop W T Q → Loop W T Q
  publish_async id payload cleanup s = wake (inbox_push (publish id payload cleanup) s)

  unfoldable pub release_async : ℕ → Loop W T Q → Loop W T Q
  release_async id s = wake (inbox_push (release id) s)

  -- `curl_resource_set_owner_thread`: the inbox is emptied
  unfoldable pub set_owner_thread : Loop W T Q → Loop W T Q
  set_owner_thread s = record s { res_inbox = [] }

-- the reversal of the list of operations
unfoldable pub reverse_onto : List Op → List Op → List Op
reverse_onto rev [] = rev
reverse_onto rev (op ∷ ops) = reverse_onto (op ∷ rev) ops

module _ {W T Q : Type 0} ⦃t : Table ℕ Node T⦄ where
  -- one round of the drain; registration is publication
  unfoldable pub apply_op : Op → Loop W T Q → Option (Loop W T Q)
  unfolding Publish.publish Refs.release
  apply_op (register id payload cleanup) s = Publish.publish id payload cleanup s
  apply_op (publish id payload cleanup) s = Publish.publish id payload cleanup s
  apply_op (release id) s = some (Refs.release id s)

  unfoldable pub apply_ops : List Op → Loop W T Q → Option (Loop W T Q)
  apply_ops [] s = some s
  apply_ops (op ∷ ops) s = elim (apply_op op s) [ none ↦ none | some s' ↦ apply_ops ops s' ]

  -- `curl_resource_inbox_drain`
  unfoldable pub inbox_drain : Loop W T Q → Option (Loop W T Q)
  unfolding apply_ops reverse_onto
  inbox_drain s = apply_ops (reverse_onto [] s.res_inbox) (record s { res_inbox = [] })
