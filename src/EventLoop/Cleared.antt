-- ===== src/EventLoop/Cleared.antt =====
-- The loops of `curl_event_loop_destroy` over its lists of requests.
use a_curl_library.Base.{ℕ, ◌+◌, ◌≤◌, ◌≡◌, refl, ap, ◌∙◌, none, Option, List, [], ◌∷◌, arith}
use a_curl_library.External.Table.{Table}
use a_curl_library.External.Queue.{Queue}
use a_curl_library.Request.{Pointer}
use a_curl_library.Loop.{Node, Loop}
use a_curl_library.Resource.Lifecycle.{request_destroy}
use a_curl_library.Resource.Teardown.{done}
use a_curl_library.EventLoop.Shutdown.{destroy_chain, destroy_list}
use a_curl_library.EventLoop.Frame.{queues, dead, IsEnd-request_destroy}
use a_curl_library.EventLoop.Retaining.{occurs}
use a_curl_library.EventLoop.Cancelling.{Linked, Linked-same, rounds_of}
use a_curl_library.EventLoop.Destroying.{destroy_live-done, dead-destroyed}

module _ {W T Q : Type 0} ⦃t : Table ℕ Node T⦄ ⦃q : Queue Q⦄ where
  -- The requests of the list are destroyed, each once, and no other.
  record IsCleared (rs : List Pointer) (l l' : Loop W T Q) : Type 0 where
    pub maps : queues l' ≡ queues l
    pub ends : (p : Pointer) → dead p l' ≡ dead p l + occurs p rs
    pub links : (p : Pointer) → (l'.requests p).next_cancelled ≡ (l.requests p).next_cancelled

  IsCleared-cons :
      (r : Pointer) (rs : List Pointer) (l l' : Loop W T Q)
      → dead r l ≡ 0
      → IsCleared rs (request_destroy r l) l'
      → IsCleared (r ∷ rs) l l'
  IsCleared-cons r rs l l' alive h =
      let end = IsEnd-request_destroy r l in
      record {
        maps = h.maps ∙ end.maps;
        ends = λ p. omega (arith, h.ends p, dead-destroyed r p l alive);
        links = λ p. h.links p ∙ end.links p;
      }

  destroy_list-Cleared :
      (rs : List Pointer) (l : Loop W T Q)
      → ((p : Pointer) → dead p l + occurs p rs ≤ 1)
      → (l' : Loop W T Q) × (destroy_list rs l ≡ done l') × IsCleared rs l l'
  unfolding destroy_list
  destroy_list-Cleared [] l once =
      (l, refl, record { maps = refl; ends = λ p. omega arith; links = λ p. refl })
  destroy_list-Cleared (r ∷ rs) l once =
      let alive : dead r l ≡ 0 = ground (arith, once r) in
      let (l', same, h) =
        destroy_list-Cleared rs (request_destroy r l)
          (λ p. omega (arith, dead-destroyed r p l alive, once p)) in
      (l', rw (destroy_list, destroy_live-done r l alive) same, IsCleared-cons r rs l l' alive h)

  destroy_chain-Cleared :
      (rs : List Pointer) (next : Option Pointer) (l : Loop W T Q)
      → Linked l.requests next rs
      → ((p : Pointer) → dead p l + occurs p rs ≤ 1)
      → (l' : Loop W T Q) × (destroy_chain (rounds_of rs) next l ≡ done l') × IsCleared rs l l'
  unfolding destroy_chain
  destroy_chain-Cleared [] next l e once = (
    l,
    rw (destroy_chain, e) refl,
    record { maps = refl; ends = λ p. omega arith; links = λ p. refl },
  )
  destroy_chain-Cleared (r ∷ rs) next l (e, linked) once =
      let alive : dead r l ≡ 0 = ground (arith, once r) in
      let l₁ = request_destroy r l in
      let end = IsEnd-request_destroy r l in
      let (l', same, h) =
        destroy_chain-Cleared rs (l.requests r).next_cancelled l₁
          (Linked-same l.requests l₁.requests _ _ rs end.links refl linked)
          (λ p. omega (arith, dead-destroyed r p l alive, once p)) in
      (
        l',
        rw (destroy_chain, e, destroy_live-done r l alive) same,
        IsCleared-cons r rs l l' alive h,
      )

  -- the pending and the injected requests
  abbrev pub listed : Pointer → Loop W T Q → ℕ
  listed p l = occurs p l.pending_requests + occurs p l.injected_requests

  listed-same :
      (l l' : Loop W T Q) → queues l' ≡ queues l → (p : Pointer) → listed p l' ≡ listed p l
  listed-same l l' e p = ap (λ m. occurs p m.pending + occurs p m.injected) e

  destroy_lists-Cleared :
      (l : Loop W T Q)
      → ((p : Pointer) → dead p l + listed p l ≤ 1)
      → (l₁ : Loop W T Q) × (l₂ : Loop W T Q) × (destroy_list l.pending_requests
            (record l { cancelled_requests = none })
          ≡ done l₁)
        × (destroy_list l₁.injected_requests (record l₁ { pending_requests = [] }) ≡ done l₂)
        × ((p : Pointer) → dead p l₂ ≡ dead p l + listed p l)
  destroy_lists-Cleared l once =
      let (l₁, x, h) =
        destroy_list-Cleared l.pending_requests (record l { cancelled_requests = none })
          (λ p. omega (arith, once p)) in
      let injected : l₁.injected_requests ≡ l.injected_requests = ap (λ m. m.injected) h.maps in
      let (l₂, y, k) =
        destroy_list-Cleared l₁.injected_requests (record l₁ { pending_requests = [] })
          (λ p. omega (arith, h.ends p, ap (occurs p) injected, once p)) in
      (l₁, l₂, x, y, λ p. omega (arith, k.ends p, h.ends p, ap (occurs p) injected))

  pub destroy_rest-Cleared :
      (rs : List Pointer) (l : Loop W T Q)
      → Linked l.requests l.cancelled_requests rs
      → ((p : Pointer) → dead p l + (occurs p rs + listed p l) ≤ 1)
      → (l₁ : Loop W T Q) × (l₂ : Loop W T Q) × (l₃ : Loop W T Q) × (destroy_chain
            (rounds_of rs)
            l.cancelled_requests
            l
          ≡ done l₁)
        × (destroy_list l₁.pending_requests (record l₁ { cancelled_requests = none }) ≡ done l₂)
        × (destroy_list l₂.injected_requests (record l₂ { pending_requests = [] }) ≡ done l₃)
        × ((p : Pointer) → dead p l₃ ≡ dead p l + (occurs p rs + listed p l))
  destroy_rest-Cleared rs l linked once =
      let (l₁, x, h) =
        destroy_chain-Cleared rs l.cancelled_requests l linked (λ p. omega (arith, once p)) in
      let same = λ (p : Pointer). listed-same l l₁ h.maps p in
      let (l₂, l₃, y, z, ends) =
        destroy_lists-Cleared l₁ (λ p. omega (arith, h.ends p, same p, once p)) in
      (l₁, l₂, l₃, x, y, z, λ p. omega (arith, ends p, h.ends p, same p))
