-- ===== src/Resource/Order.antt =====
-- The order of cross-thread operations, and which of them are lost.
use a_curl_library.Base.{ℕ, ◌≡◌, refl, Option, some, List, [], ◌∷◌, ap, ◌∙◌}
use a_curl_library.External.Table.{Table}
use a_curl_library.Request.{Pointer}
use a_curl_library.Loop.{Node, Loop, Op, register, publish, release}
use a_curl_library.Resource.Inbox.{
  register_async, publish_async, release_async, set_owner_thread, reverse_onto, apply_ops,
  inbox_drain,
}

-- What another thread can post: the three functions with the suffix `_async`.
pub data Post : Type 0 where
  registers : Option Pointer → Option Pointer → Post
  publishes : ℕ → Option Pointer → Option Pointer → Post
  releases : ℕ → Post

-- The operation that a post stands for, where `id` is the next free id.
abbrev pub op_of : ℕ → Post → Op
op_of id (registers payload cleanup) = register id payload cleanup
op_of id (publishes k payload cleanup) = publish k payload cleanup
op_of id (releases k) = release k

module _ {W T Q : Type 0} where
  unfoldable pub post : Post → Loop W T Q → Loop W T Q
  post (registers payload cleanup) s = (register_async payload cleanup s).0
  post (publishes k payload cleanup) s = publish_async k payload cleanup s
  post (releases k) s = release_async k s

  unfoldable pub post_all : List Post → Loop W T Q → Loop W T Q
  post_all [] s = s
  post_all (x ∷ xs) s = post_all xs (post x s)

  -- The operations of a list of posts, in the order of the posts.
  unfoldable pub ops_of : List Post → Loop W T Q → List Op
  ops_of [] s = []
  ops_of (x ∷ xs) s = op_of s.next_id x ∷ ops_of xs (post x s)

  post-inbox : (x : Post) (s : Loop W T Q) → (post x s).res_inbox ≡ op_of s.next_id x ∷ s.res_inbox
  unfolding post register_async publish_async release_async
  post-inbox (registers payload cleanup) s = refl
  post-inbox (publishes k payload cleanup) s = refl
  post-inbox (releases k) s = refl

  post-resources : (x : Post) (s : Loop W T Q) → (post x s).resources ≡ s.resources
  unfolding post register_async publish_async release_async
  post-resources (registers payload cleanup) s = refl
  post-resources (publishes k payload cleanup) s = refl
  post-resources (releases k) s = refl

  -- The reversal undoes the stack.
  post_all-inbox :
      (xs : List Post) (s : Loop W T Q)
      → reverse_onto [] (post_all xs s).res_inbox ≡ reverse_onto (ops_of xs s) s.res_inbox
  unfolding post_all ops_of reverse_onto
  post_all-inbox [] s = refl
  post_all-inbox (x ∷ xs) s = post_all-inbox xs (post x s) ∙ rw (post-inbox x s, reverse_onto) refl

  post_all-resources : (xs : List Post) (s : Loop W T Q) → (post_all xs s).resources ≡ s.resources
  unfolding post_all
  post_all-resources [] s = refl
  post_all-resources (x ∷ xs) s = post_all-resources xs (post x s) ∙ post-resources x s

module _ {W T Q : Type 0} ⦃t : Table ℕ Node T⦄ where
  -- If the inbox was empty, a drain applies exactly the operations that were posted since, each once
  -- and in the order of the posts, though they were pushed on a stack.
  pub drain_in_order :
      (xs : List Post) (s : Loop W T Q)
      → s.res_inbox ≡ []
      → inbox_drain (post_all xs s)
        ≡ apply_ops (ops_of xs s) (record (post_all xs s) { res_inbox = [] })
  unfolding inbox_drain
  drain_in_order xs s e =
      ap (λ ops. apply_ops ops (record (post_all xs s) { res_inbox = [] }))
        (post_all-inbox xs s ∙ rw (e, reverse_onto) refl)

  -- Whatever was posted before `curl_resource_set_owner_thread` runs, which is the first thing that a
  -- round of the event loop does: the next drain applies none of it, and the resources stay as they
  -- were before the posts.
  pub owner_thread_drops_posts :
      (xs : List Post) (s : Loop W T Q)
      → (s' : Loop W T Q) × (inbox_drain (set_owner_thread (post_all xs s)) ≡ some s')
        × (s'.resources ≡ s.resources)
        × (s'.res_inbox ≡ [])
  unfolding inbox_drain set_owner_thread
  owner_thread_drops_posts xs s =
      (record (post_all xs s) { res_inbox = [] }, refl, post_all-resources xs s, refl)
