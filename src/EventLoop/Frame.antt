-- ===== src/EventLoop/Frame.antt =====
-- What the end of a request leaves alone in the loop: its maps of requests and their counters.
use a_curl_library.Base.{
  ℕ, ◌≡◌, refl, ap, ◌∙◌, false, ◌==◌, ◌&&◌, Option, List, [], ◌∷◌, ℤ, pos, ◌+ℤ◌, ◌-ℤ◌, ltb_ℤ, arith,
  if◌then◌else◌, Bool-cases, Option-cases, inl, inr,
}
use a_curl_library.External.Table.{Table}
use a_curl_library.Request.{Pointer}
use a_curl_library.Loop.{Node, Loop}
use a_curl_library.Resource.Refs
use a_curl_library.Resource.Refs.{
  is_int, is_empty, node_of, write_node, drop_ref, release_dep, release_request_deps,
  maybe_autorelease_owner, retain_request_deps, update_or_create,
}
use a_curl_library.Resource.Blocking.{block_on_id, check_and_block_list}
use a_curl_library.Resource.Lifecycle.{
  request_destroy, request_cleanup, let_go, free_parts, free_pool,
}

-- The maps of requests with their counters, and the lists of requests.
pub record Queues (Q : Type 0) : Type 0 where
  pub queued : Q
  pub inactive : Q
  pub refresh : Q
  pub limited : Q
  pub num_queued : ℤ
  pub num_inactive : ℤ
  pub num_refresh : ℤ
  pub cancelled : Option Pointer
  pub pending : List Pointer
  pub injected : List Pointer

module _ {W T Q : Type 0} where
  abbrev pub queues : Loop W T Q → Queues Q
  queues s = record {
    queued = s.queued_requests;
    inactive = s.inactive_requests;
    refresh = s.refresh_requests;
    limited = s.rate_limited_requests;
    num_queued = s.num_queued_requests;
    num_inactive = s.num_inactive_requests;
    num_refresh = s.num_refresh_requests;
    cancelled = s.cancelled_requests;
    pending = s.pending_requests;
    injected = s.injected_requests;
  }

  -- 1 for a request whose pool is gone
  abbrev pub dead : Pointer → Loop W T Q → ℕ
  dead p s = if (s.requests p).pool then 0 else 1

  -- The maps, the counters and the wrappers are the same.
  pub record IsFramed (s s' : Loop W T Q) : Type 0 where
    pub maps : queues s' ≡ queues s
    pub wrappers : s'.requests ≡ s.requests

  IsFramed-trans : (s s' s'' : Loop W T Q) → IsFramed s s' → IsFramed s' s'' → IsFramed s s''
  IsFramed-trans s s' s'' a b = record {
    maps = b.maps ∙ a.maps;
    wrappers = b.wrappers ∙ a.wrappers;
  }

  -- The maps are the same, no pool is freed or made, and only the wrapper `r` is written.
  pub record IsAlike (r : Pointer) (s s' : Loop W T Q) : Type 0 where
    pub maps : queues s' ≡ queues s
    pub pools : (p : Pointer) → (s'.requests p).pool ≡ (s.requests p).pool
    pub links : (p : Pointer) → (s'.requests p).next_cancelled ≡ (s.requests p).next_cancelled
    pub others : (p : Pointer) → (p == r) ≡ false → s'.requests p ≡ s.requests p

  pub IsAlike-request_cleanup : (r : Pointer) (s : Loop W T Q) → IsAlike r s (request_cleanup r s)
  unfolding request_cleanup
  IsAlike-request_cleanup r s = record {
    maps = ground arith;
    pools = λ p. ground arith;
    links = λ p. ground arith;
    others = λ p e. ground (arith, e);
  }

  IsAlike-free_parts : (r : Pointer) (s : Loop W T Q) → IsAlike r s (free_parts r s)
  unfolding free_parts
  IsAlike-free_parts r s = record {
    maps = ground arith;
    pools = λ p. ground arith;
    links = λ p. ground arith;
    others = λ p e. ground (arith, e);
  }

module _ {W T Q : Type 0} ⦃t : Table ℕ Node T⦄ where
  IsFramed-release : (id : ℕ) (s : Loop W T Q) → IsFramed s (Refs.release id s)
  unfolding Refs.release drop_ref
  IsFramed-release id s = record { maps = ground arith; wrappers = ground arith }

  IsFramed-release_dep : (d : ℕ) (s : Loop W T Q) → IsFramed s (release_dep d s)
  unfolding release_dep maybe_autorelease_owner
  IsFramed-release_dep d s = elim (Option-cases (node_of d s)) [
    | inl e ↦ rw (e, release_dep) (record { maps = refl; wrappers = refl })
    | inr (n, e) ↦
        let z : ℤ = if ltb_ℤ (pos 0) n.refcnt then n.refcnt -ℤ pos 1 else n.refcnt in
        let s' = write_node d (record n { refcnt = z }) s in
        let h : IsFramed s s' = record { maps = refl; wrappers = refl } in
        rw (e, release_dep)
          (elim (Bool-cases (n.auto_release_owner && (is_int 1 z && is_empty n.blocked))) [
            | inl on ↦ rw on (IsFramed-trans s s' (Refs.release d s') h (IsFramed-release d s'))
            | inr off ↦ rw off h
          ])
  ]

  IsFramed-release_request_deps :
      (ds : List ℕ) (s : Loop W T Q) → IsFramed s (release_request_deps ds s)
  unfolding release_request_deps
  IsFramed-release_request_deps [] s = record { maps = refl; wrappers = refl }
  IsFramed-release_request_deps (d ∷ ds) s =
      IsFramed-trans s (release_dep d s) _ (IsFramed-release_dep d s)
        (IsFramed-release_request_deps ds (release_dep d s))

  pub IsFramed-check_and_block_list :
      (r : Pointer) (ds : List ℕ) (s : Loop W T Q) → IsFramed s (check_and_block_list r ds s).0
  unfolding check_and_block_list block_on_id
  IsFramed-check_and_block_list r [] s = record { maps = refl; wrappers = refl }
  IsFramed-check_and_block_list r (d ∷ ds) s =
      let s' = (block_on_id r d s).0 in
      let h : IsFramed s s' = record { maps = ground arith; wrappers = ground arith } in
      elim (Bool-cases (block_on_id r d s).1) [
        | inl e ↦ rw (check_and_block_list, e) h
        | inr e ↦
            rw (check_and_block_list, e)
              (IsFramed-trans s s' _ h (IsFramed-check_and_block_list r ds s'))
      ]

  pub IsFramed-retain_request_deps :
      (ds : List ℕ) (s : Loop W T Q) → IsFramed s (retain_request_deps ds s)
  unfolding retain_request_deps
  IsFramed-retain_request_deps [] s = record { maps = refl; wrappers = refl }
  IsFramed-retain_request_deps (d ∷ ds) s =
      IsFramed-trans s (update_or_create d (λ n. record n { refcnt = n.refcnt +ℤ pos 1 }) s) _
        (record { maps = refl; wrappers = refl }) (IsFramed-retain_request_deps ds _)

  IsAlike-let_go : (r : Pointer) (s : Loop W T Q) → IsAlike r s (let_go r s)
  unfolding let_go
  IsAlike-let_go r s =
      let h = IsFramed-release_request_deps (s.requests r).deps s in
      elim (Bool-cases (s.requests r).deps_retained) [
        | inl e ↦ rw e (record {
          maps = h.maps;
          pools = λ p. ground (arith, ap (λ f. f p) h.wrappers);
          links = λ p. ground (arith, ap (λ f. f p) h.wrappers);
          others = λ p x. ground (arith, x, ap (λ f. f p) h.wrappers);
        })
        | inr e ↦
            rw e
              (record { maps = refl; pools = λ p. refl; links = λ p. refl; others = λ p e. refl })
      ]

  -- The end of a request.
  pub record IsEnd (r : Pointer) (s s' : Loop W T Q) : Type 0 where
    pub maps : queues s' ≡ queues s
    pub pools :
        (p : Pointer) → (s'.requests p).pool ≡ (if p == r then false else (s.requests p).pool)
    pub links : (p : Pointer) → (s'.requests p).next_cancelled ≡ (s.requests p).next_cancelled
    pub others : (p : Pointer) → (p == r) ≡ false → s'.requests p ≡ s.requests p

  IsEnd-free_pool : (r : Pointer) (s : Loop W T Q) → IsEnd r s (free_pool r s)
  unfolding free_pool
  IsEnd-free_pool r s = record {
    maps = ground arith;
    pools = λ p. ground arith;
    links = λ p. ground arith;
    others = λ p e. ground (arith, e);
  }

  pub IsEnd-request_destroy : (r : Pointer) (s : Loop W T Q) → IsEnd r s (request_destroy r s)
  unfolding request_destroy
  IsEnd-request_destroy r s =
      let s₁ = request_cleanup r s in
      let s₂ = let_go r s₁ in
      let s₃ = free_parts r s₂ in
      let a = IsAlike-request_cleanup r s in
      let b = IsAlike-let_go r s₁ in
      let c = IsAlike-free_parts r s₂ in
      let e = IsEnd-free_pool r s₃ in
      record {
        maps = e.maps ∙ c.maps ∙ b.maps ∙ a.maps;
        pools = λ p. ground (arith, e.pools p, c.pools p, b.pools p, a.pools p);
        links = λ p. e.links p ∙ c.links p ∙ b.links p ∙ a.links p;
        others = λ p x. e.others p x ∙ c.others p x ∙ b.others p x ∙ a.others p x;
      }
