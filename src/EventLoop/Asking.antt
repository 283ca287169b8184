-- ===== src/EventLoop/Asking.antt =====
-- What the questions of `request_ready` come to, without the helpers of the code.
use a_curl_library.Base.{
  ℕ, ◌≡◌, refl, ◌↔◌, true, Option, none, some, List, [], ◌∷◌, arith, All, Option-cases, inl, inr,
}
use a_curl_library.External.Double.{Double}
use a_curl_library.External.Table.{Table}
use a_curl_library.RateManager.{RateLimit}
use a_curl_library.RateManager
use a_curl_library.Request.{Text, Pointer}
use a_curl_library.Loop.{Node, Loop}
use a_curl_library.Resource.Refs.{node_of}
use a_curl_library.Resource.Blocking.{is_ready, all_ready_list}
use a_curl_library.EventLoop.{Sys, wrapper}
use a_curl_library.EventLoop.Start.{ask_rate, rate_wait}

module _ {W T Q : Type 0} ⦃t : Table ℕ Node T⦄ where
  -- There is a node, and its payload is there or has failed.
  pub record IsSettled (l : Loop W T Q) (id : ℕ) : Type 0 where
    pub node : Node
    pub found : node_of id l ≡ some node
    pub settled : node.payload ≡ none → node.failed ≡ true

  IsSettled-ready : (id : ℕ) (l : Loop W T Q) → is_ready (node_of id l) ≡ true → IsSettled l id
  IsSettled-ready id l h = elim (Option-cases (node_of id l)) [
    | inl e ↦ cc (rw e at h)
    | inr (n, e) ↦ record {
      node = n;
      found = e;
      settled = λ none_there. ground (arith, rw e at h, none_there);
    }
  ]

  ready-IsSettled : (id : ℕ) (l : Loop W T Q) → IsSettled l id → is_ready (node_of id l) ≡ true
  ready-IsSettled id l h = elim (Option-cases h.node.payload) [
    | inl e ↦ ground (arith, h.found, e, h.settled e)
    | inr (p, e) ↦ ground (arith, h.found, e)
  ]

  pub All-IsSettled :
      (ds : List ℕ) (l : Loop W T Q) → all_ready_list ds l ≡ true → All (IsSettled l) ds
  unfolding all_ready_list
  All-IsSettled [] l h = tt
  All-IsSettled (d ∷ ds) l h =
      (IsSettled-ready d l (ground (arith, h)), All-IsSettled ds l (ground (arith, h)))

  pub settled-All :
      (ds : List ℕ) (l : Loop W T Q) → All (IsSettled l) ds → all_ready_list ds l ≡ true
  unfolding all_ready_list
  settled-All [] l h = refl
  settled-All (d ∷ ds) l h = ground (arith, ready-IsSettled d l h.0, settled-All ds l h.1)

-- how often the clock is read before the request's time is looked at
abbrev pub readings : Option Text → ℕ
readings none = 0
readings (some key) = 1

module _ {W T Q M : Type 0} ⦃d : Double W⦄ ⦃m : Table Text (RateLimit W) M⦄ where
  -- The rate manager asks for no wait, if the request has a key.
  abbrev pub IsAllowed : Option Text → Pointer → Sys W T Q M → Type 0
  IsAllowed none r s = Unit {0}
  IsAllowed (some key) r s =
      (RateManager.can_proceed key (wrapper r s).rate_limit_high_priority (s.clock 0) s.manager).1
      ≡ 0

  waits-IsAllowed :
      (r : Pointer) (s : Sys W T Q M) (limit : Option Text)
      → (wrapper r s).rate_limit ≡ limit
      → (((rate_wait r s).1 ≡ 0) ↔ IsAllowed limit r s)
        × ((rate_wait r s).0.clock 0 ≡ s.clock (readings limit))
  unfolding ask_rate
  waits-IsAllowed r s none e = rw (rate_wait, e) ((λ h. tt, λ h. refl), refl)
  waits-IsAllowed r s (some key) e = rw (rate_wait, e) ((λ h. h, λ h. h), refl)

  pub wait-IsAllowed :
      (r : Pointer) (s : Sys W T Q M)
      → (((rate_wait r s).1 ≡ 0) ↔ IsAllowed (wrapper r s).rate_limit r s)
        × ((rate_wait r s).0.clock 0 ≡ s.clock (readings (wrapper r s).rate_limit))
  wait-IsAllowed r s = waits-IsAllowed r s (wrapper r s).rate_limit refl
