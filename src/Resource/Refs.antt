-- ===== src/Resource/Refs.antt =====
-- Reference counts of src/curl_resource.c.
use a_curl_library.Base.{
  ℕ, ◌+◌, ◌%◌, ◌^◌, Bool, true, false, ◌&&◌, Option, none, some, List, [], ◌∷◌, ℤ, pos, ◌+ℤ◌, ◌-ℤ◌,
  ltb_ℤ, ◌==◌, if◌then◌else◌,
}
use a_curl_library.External.Table.{Table}
use a_curl_library.Request.{Pointer}
use a_curl_library.Loop.{Node, Loop, cleaned, emit}

abbrev pub is_int : ℕ → ℤ → Bool
is_int n (pos m) = m == n
is_int n _ = false

abbrev pub is_empty : {A : Type 0} → List A → Bool
is_empty [] = true
is_empty (x ∷ xs) = false

-- the zeroed node of `res_get_or_create`
abbrev pub placeholder : Node
placeholder = record {
  payload = none;
  cleanup = none;
  refcnt = pos 0;
  failed = false;
  auto_release_owner = false;
  blocked = [];
}

abbrev pub or_placeholder : Option Node → Node
or_placeholder none = placeholder
or_placeholder (some n) = n

-- A payload that is not published and has not failed.
abbrev pub is_unmet : Node → Bool
is_unmet n = elim n.payload [ none ↦ (if n.failed then false else true) | some p ↦ false ]

module _ {W T Q : Type 0} ⦃t : Table ℕ Node T⦄ where
  abbrev pub node_of : ℕ → Loop W T Q → Option Node
  node_of id s = t.find id s.resources

  abbrev pub write_node : ℕ → Node → Loop W T Q → Loop W T Q
  write_node id n s = record s { resources = t.store id n s.resources }

  -- `res_get_or_create`, and the writes to the node that follow it
  abbrev pub update_or_create : ℕ → (Node → Node) → Loop W T Q → Loop W T Q
  update_or_create id f s = write_node id (f (or_placeholder (node_of id s))) s

  -- `if (cleanup && payload) cleanup(payload)`
  abbrev pub run_cleanup : Option Pointer → Option Pointer → Loop W T Q → Loop W T Q
  run_cleanup (some f) (some p) s = emit (cleaned f p) s
  run_cleanup _ _ s = s

  unfoldable pub addref : ℕ → Loop W T Q → Loop W T Q
  addref id =
      update_or_create id
        λ n. record n { refcnt = if is_int 0 n.refcnt then pos 1 else n.refcnt +ℤ pos 1 }

  unfoldable pub retain_request_deps : List ℕ → Loop W T Q → Loop W T Q
  retain_request_deps [] s = s
  retain_request_deps (d ∷ ds) s =
      retain_request_deps ds (update_or_create d (λ n. record n { refcnt = n.refcnt +ℤ pos 1 }) s)

  unfoldable pub autorelease_owner : ℕ → Bool → Loop W T Q → Loop W T Q
  autorelease_owner id enable = update_or_create id λ n. record n { auto_release_owner = enable }

  -- `curl_event_res_release` of a node that was found
  unfoldable pub drop_ref : ℕ → Node → Loop W T Q → Loop W T Q
  drop_ref id n s =
      let n' : Node = record n { refcnt = n.refcnt -ℤ pos 1 } in
      if is_int 0 n'.refcnt
      then run_cleanup n.cleanup n.payload (record s { resources = t.erase id s.resources })
      else write_node id n' s

  unfoldable pub release : ℕ → Loop W T Q → Loop W T Q
  unfolding drop_ref
  release id s = elim (node_of id s) [ none ↦ s | some n ↦ drop_ref id n s ]

  unfoldable pub maybe_autorelease_owner : ℕ → Node → Loop W T Q → Loop W T Q
  unfolding release
  maybe_autorelease_owner id n s =
      if n.auto_release_owner && (is_int 1 n.refcnt && is_empty n.blocked) then release id s else s

  -- one round of `curl_resource_release_request_deps`
  unfoldable pub release_dep : ℕ → Loop W T Q → Loop W T Q
  unfolding maybe_autorelease_owner
  release_dep d s = elim (node_of d s) [
    | none ↦ s
    | some n ↦
        let n' : Node = record n {
          refcnt = if ltb_ℤ (pos 0) n.refcnt then n.refcnt -ℤ pos 1 else n.refcnt;
        } in
        maybe_autorelease_owner d n' (write_node d n' s)
  ]

  unfoldable pub release_request_deps : List ℕ → Loop W T Q → Loop W T Q
  unfolding release_dep
  release_request_deps [] s = s
  release_request_deps (d ∷ ds) s = release_request_deps ds (release_dep d s)

  -- A new id: `atomic_fetch_add` of a 64-bit counter, and its node.
  unfoldable pub declare : Loop W T Q → Loop W T Q × ℕ
  declare s = (
    record s {
      resources = t.store s.next_id (record placeholder { refcnt = pos 1 }) s.resources;
      next_id = (s.next_id + 1) % 2 ^ 64;
    },
    s.next_id,
  )

  -- `curl_event_res_peek`
  unfoldable pub peek : ℕ → Loop W T Q → Option Pointer
  peek id s = elim (node_of id s) [ none ↦ none | some n ↦ if n.failed then none else n.payload ]

  -- `curl_event_res_get_str`
  unfoldable pub get_str : ℕ → Loop W T Q → Option Pointer
  get_str id s = elim (node_of id s) [
    | none ↦ none
    | some n ↦ if n.failed then none else elim n.payload [ none ↦ none | some p ↦ some p ]
  ]
