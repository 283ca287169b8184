-- ===== src/Resource/Untouched.antt =====
-- The parts of a request's end that leave the table of resources alone.
use a_curl_library.Base.{ℕ, ◌≡◌, ◌∙◌, arith}
use a_curl_library.External.Table.{Table}
use a_curl_library.Request.{Pointer}
use a_curl_library.Loop.{Node, Loop}
use a_curl_library.Resource.Lifecycle.{
  request_destroy, request_cleanup, let_go, free_parts, free_pool,
}
use a_curl_library.Resource.Publish.{call_on_failure}

module _ {W T Q : Type 0} where
  pub resources-request_cleanup :
      (r : Pointer) (s : Loop W T Q) → (request_cleanup r s).resources ≡ s.resources
  unfolding request_cleanup
  resources-request_cleanup r s = ground arith

  resources-free_parts : (r : Pointer) (s : Loop W T Q) → (free_parts r s).resources ≡ s.resources
  unfolding free_parts
  resources-free_parts r s = ground arith

  resources-free_pool : (r : Pointer) (s : Loop W T Q) → (free_pool r s).resources ≡ s.resources
  unfolding free_pool
  resources-free_pool r s = ground arith

module _ {W T Q : Type 0} ⦃t : Table ℕ Node T⦄ where
  pub resources-request_destroy :
      (r : Pointer) (s : Loop W T Q)
      → (request_destroy r s).resources ≡ (let_go r (request_cleanup r s)).resources
  unfolding request_destroy
  resources-request_destroy r s =
      let s' = let_go r (request_cleanup r s) in
      resources-free_pool r (free_parts r s') ∙ resources-free_parts r s'

  pub resources-call_on_failure :
      (r : Pointer) (s : Loop W T Q)
      → (call_on_failure (s.requests r).on_failure r s).resources ≡ s.resources
  resources-call_on_failure r s = ground arith
