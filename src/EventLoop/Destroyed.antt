-- ===== src/EventLoop/Destroyed.antt =====
-- `curl_event_loop_destroy`: every request of the loop is destroyed once.
use a_curl_library.EventLoop.Cleared.{listed, destroy_rest-Cleared}
use a_curl_library.Base.{ℕ, ◌+◌, ◌≤◌, ◌≡◌, refl, ap, ◌∙◌, none, List, [], arith}
use a_curl_library.External.Table.{Table}
use a_curl_library.External.Queue.{Queue, IsQueue}
use a_curl_library.Request.{Pointer}
use a_curl_library.Loop.{Node, Loop}
use a_curl_library.Resource.Teardown.{done, destroy_all}
use a_curl_library.EventLoop.Shutdown.{
  Which, of_queued, of_inactive, of_refresh, of_limited, destroy_requests, destroy_chain,
  destroy_list, loop_destroy,
}
use a_curl_library.EventLoop.Frame.{dead}
use a_curl_library.EventLoop.Conserve.{owed, placed}
use a_curl_library.EventLoop.Moves.{Once}
use a_curl_library.EventLoop.Retaining.{occurs}
use a_curl_library.EventLoop.Cancelling.{Linked, Linked-same, rounds_of}
use a_curl_library.EventLoop.Destroying.{IsEmptied, put_root, destroy_map-Emptied}

module _ {W T Q : Type 0} ⦃t : Table ℕ Node T⦄ ⦃q : Queue Q⦄ where
  loop_destroy-steps :
      (fuel : ℕ) (l l₁ l₂ l₃ l₄ l₅ l₆ l₇ : Loop W T Q)
      → destroy_requests of_queued l ≡ done l₁
      → destroy_requests of_inactive l₁ ≡ done l₂
      → destroy_requests of_refresh l₂ ≡ done l₃
      → destroy_requests of_limited l₃ ≡ done l₄
      → destroy_chain fuel l₄.cancelled_requests l₄ ≡ done l₅
      → destroy_list l₅.pending_requests (record l₅ { cancelled_requests = none }) ≡ done l₆
      → destroy_list l₆.injected_requests (record l₆ { pending_requests = [] }) ≡ done l₇
      → loop_destroy fuel l ≡ destroy_all (record l₇ { injected_requests = [] })
  unfolding loop_destroy
  loop_destroy-steps fuel l l₁ l₂ l₃ l₄ l₅ l₆ l₇ x₁ x₂ x₃ x₄ x₅ x₆ x₇ =
      rw (loop_destroy, x₁, x₂, x₃, x₄, x₅, x₆, x₇) refl

  module _ (laws : IsQueue Q) where
    destroy_requests-Emptied :
        (k : Which) (l : Loop W T Q)
        → Once l
        → (l' : Loop W T Q) × (destroy_requests k l ≡ done l') × IsEmptied k l l'
    unfolding destroy_requests
    destroy_requests-Emptied k l once = destroy_map-Emptied laws _ k l (omega arith) once

    -- The four maps are empty, and what stood in them is destroyed.
    record IsBare (l l' : Loop W T Q) : Type 0 where
      pub ends : (p : Pointer) → dead p l' ≡ owed p l
      pub links : (p : Pointer) → (l'.requests p).next_cancelled ≡ (l.requests p).next_cancelled
      pub cancelled : l'.cancelled_requests ≡ l.cancelled_requests
      pub pending : l'.pending_requests ≡ l.pending_requests
      pub injected : l'.injected_requests ≡ l.injected_requests

    bare_listed : (l l' : Loop W T Q) → IsBare l l' → (p : Pointer) → listed p l' ≡ listed p l
    bare_listed l l' h p = omega (arith, ap (occurs p) h.pending, ap (occurs p) h.injected)

    emptied-Bare :
        (l l₁ l₂ l₃ l₄ : Loop W T Q)
        → IsEmptied of_queued l l₁
        → IsEmptied of_inactive l₁ l₂
        → IsEmptied of_refresh l₂ l₃
        → IsEmptied of_limited l₃ l₄
        → IsBare l l₄
    emptied-Bare l l₁ l₂ l₃ l₄ a b c e =
        let maps =
          e.maps
          ∙ ap (put_root of_limited e.rest) (
              c.maps
              ∙ ap (put_root of_refresh c.rest)
                  (b.maps ∙ ap (put_root of_inactive b.rest) a.maps)) in
        record {
          ends = λ p. omega (
            arith,
            ap (placed p) maps,
            a.empty p,
            b.empty p,
            c.empty p,
            e.empty p,
            e.owed_same p,
            c.owed_same p,
            b.owed_same p,
            a.owed_same p,
          );
          links = λ p. e.links p ∙ c.links p ∙ b.links p ∙ a.links p;
          cancelled = ap (λ m. m.cancelled) maps;
          pending = ap (λ m. m.pending) maps;
          injected = ap (λ m. m.injected) maps;
        }

    -- The four loops over the maps.
    destroy_maps-Bare :
        (l : Loop W T Q)
        → Once l
        → (l₁ : Loop W T Q) × (l₂ : Loop W T Q) × (l₃ : Loop W T Q) × (l₄ : Loop W T Q)
          × (destroy_requests of_queued l ≡ done l₁)
          × (destroy_requests of_inactive l₁ ≡ done l₂)
          × (destroy_requests of_refresh l₂ ≡ done l₃)
          × (destroy_requests of_limited l₃ ≡ done l₄)
          × IsBare l l₄
    destroy_maps-Bare l once =
        let (l₁, x₁, a) = destroy_requests-Emptied of_queued l once in
        let once₁ : Once l₁ = λ p. omega (arith, a.owed_same p, once p) in
        let (l₂, x₂, b) = destroy_requests-Emptied of_inactive l₁ once₁ in
        let once₂ : Once l₂ = λ p. omega (arith, b.owed_same p, once₁ p) in
        let (l₃, x₃, c) = destroy_requests-Emptied of_refresh l₂ once₂ in
        let once₃ : Once l₃ = λ p. omega (arith, c.owed_same p, once₂ p) in
        let (l₄, x₄, e) = destroy_requests-Emptied of_limited l₃ once₃ in
        (l₁, l₂, l₃, l₄, x₁, x₂, x₃, x₄, emptied-Bare l l₁ l₂ l₃ l₄ a b c e)

    loop_destroy-listed :
        (rs : List Pointer) (l : Loop W T Q)
        → Linked l.requests l.cancelled_requests rs
        → ((p : Pointer) → owed p l + (occurs p rs + listed p l) ≤ 1)
        → (l' : Loop W T Q) × (loop_destroy (rounds_of rs) l ≡ destroy_all l')
          × ((p : Pointer) → dead p l' ≡ owed p l + (occurs p rs + listed p l))
    loop_destroy-listed rs l linked once =
        let (l₁, l₂, l₃, l₄, x₁, x₂, x₃, x₄, bare) =
          destroy_maps-Bare l (λ p. omega (arith, once p)) in
        let same = λ (p : Pointer). bare_listed l l₄ bare p in
        let (l₅, l₆, l₇, x₅, x₆, x₇, ends) =
          destroy_rest-Cleared rs l₄
            (Linked-same l.requests l₄.requests _ _ rs bare.links bare.cancelled linked)
            (λ p. omega (arith, bare.ends p, same p, once p)) in
        (
          record l₇ { injected_requests = [] },
          loop_destroy-steps (rounds_of rs) l l₁ l₂ l₃ l₄ l₅ l₆ l₇ x₁ x₂ x₃ x₄ x₅ x₆ x₇,
          λ p. omega (arith, ends p, bare.ends p, same p),
        )

    -- Where no request was injected, and none stands in two places, counting the maps, the cancelled and
    -- the pending requests and those that were destroyed, `curl_event_loop_destroy` comes to the end of
    -- the resources having read no request after its end, and by then the requests of all these places
    -- are destroyed, and no other.
    pub loop_destroy-clears :
        (rs : List Pointer) (l : Loop W T Q)
        → l.injected_requests ≡ []
        → Linked l.requests l.cancelled_requests rs
        → ((p : Pointer) → owed p l + (occurs p rs + occurs p l.pending_requests) ≤ 1)
        → (l' : Loop W T Q) × (loop_destroy (rounds_of rs) l ≡ destroy_all l')
          × ((p : Pointer) → dead p l' ≡ owed p l + (occurs p rs + occurs p l.pending_requests))
    loop_destroy-clears rs l none_injected linked once =
        let alone = λ (p : Pointer). ap (occurs p) none_injected in
        let (l', ends, all) =
          loop_destroy-listed rs l linked (λ p. omega (arith, once p, alone p)) in
        (l', ends, λ p. omega (arith, all p, alone p))
