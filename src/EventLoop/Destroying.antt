-- ===== src/EventLoop/Destroying.antt =====
-- The loops of `curl_event_loop_destroy` over the requests.
use a_curl_library.Base.{
  ℕ, zero, suc, ◌+◌, ◌<◌, ◌≡◌, refl, ap, ◌∙◌, sym, ◌==◌, some, arith, if◌then◌else◌, Option-cases,
  inl, inr,
}
use a_curl_library.External.Table.{Table}
use a_curl_library.External.Queue.{Queue, IsQueue, count, is_request}
use a_curl_library.Request.{Pointer}
use a_curl_library.Loop.{Node, Loop}
use a_curl_library.Resource.Lifecycle.{request_destroy}
use a_curl_library.Resource.Teardown.{done}
use a_curl_library.EventLoop.Shutdown.{
  Which, of_queued, of_inactive, of_refresh, of_limited, root_of, set_root, destroy_live,
  destroy_map,
}
use a_curl_library.EventLoop.Frame.{Queues, queues, dead, IsEnd-request_destroy}
use a_curl_library.EventLoop.Conserve.{size, owed, placed, front-count}
use a_curl_library.EventLoop.Moves.{Once}

module _ {Q : Type 0} where
  abbrev pub put_root : Which → Q → Queues Q → Queues Q
  put_root of_queued root m = record m { queued = root }
  put_root of_inactive root m = record m { inactive = root }
  put_root of_refresh root m = record m { refresh = root }
  put_root of_limited root m = record m { limited = root }

  put_root-put_root :
      (k : Which) (root root' : Q) (m : Queues Q)
      → put_root k root' (put_root k root m) ≡ put_root k root' m
  put_root-put_root of_queued root root' m = refl
  put_root-put_root of_inactive root root' m = refl
  put_root-put_root of_refresh root root' m = refl
  put_root-put_root of_limited root root' m = refl

module _ {W T Q : Type 0} ⦃q : Queue Q⦄ where
  maps-set_root :
      (k : Which) (root : Q) (l : Loop W T Q)
      → queues (set_root k root l) ≡ put_root k root (queues l)
  maps-set_root of_queued root l = refl
  maps-set_root of_inactive root l = refl
  maps-set_root of_refresh root l = refl
  maps-set_root of_limited root l = refl

  wrappers-set_root :
      (k : Which) (root : Q) (l : Loop W T Q) → (set_root k root l).requests ≡ l.requests
  wrappers-set_root of_queued root l = refl
  wrappers-set_root of_inactive root l = refl
  wrappers-set_root of_refresh root l = refl
  wrappers-set_root of_limited root l = refl

  -- one of the maps, among all
  placed-put_root :
      (k : Which) (p : Pointer) (root : Q) (l : Loop W T Q)
      → placed p (put_root k root (queues l)) + count p (root_of k l)
        ≡ placed p (queues l) + count p root
  placed-put_root of_queued p root l = omega arith
  placed-put_root of_inactive p root l = omega arith
  placed-put_root of_refresh p root l = omega arith
  placed-put_root of_limited p root l = omega arith

  root_of-put_root :
      (k : Which) (root : Q) (l l' : Loop W T Q)
      → queues l' ≡ put_root k root (queues l)
      → root_of k l' ≡ root
  root_of-put_root of_queued root l l' e = ap (λ m. m.queued) e
  root_of-put_root of_inactive root l l' e = ap (λ m. m.inactive) e
  root_of-put_root of_refresh root l l' e = ap (λ m. m.refresh) e
  root_of-put_root of_limited root l l' e = ap (λ m. m.limited) e

  -- The map is empty now, and its requests are destroyed.
  pub record IsEmptied (k : Which) (l l' : Loop W T Q) : Type 0 where
    pub rest : Q
    pub maps : queues l' ≡ put_root k rest (queues l)
    pub empty : (p : Pointer) → count p rest ≡ 0
    pub owed_same : (p : Pointer) → owed p l' ≡ owed p l
    pub links : (p : Pointer) → (l'.requests p).next_cancelled ≡ (l.requests p).next_cancelled

module _ {W T Q : Type 0} ⦃t : Table ℕ Node T⦄ ⦃q : Queue Q⦄ where
  -- A request that is alive is destroyed, and nothing is read after its end.
  pub destroy_live-done :
      (r : Pointer) (l : Loop W T Q) → dead r l ≡ 0 → destroy_live r l ≡ done (request_destroy r l)
  destroy_live-done r l alive = ground (arith, alive)

  pub dead-destroyed :
      (r p : Pointer) (l : Loop W T Q)
      → dead r l ≡ 0
      → dead p (request_destroy r l) ≡ dead p l + (if r == p then 1 else 0)
  dead-destroyed r p l alive = ground (arith, (IsEnd-request_destroy r l).pools p, alive)

  -- The first request of a map is taken out of it and destroyed.
  abbrev destroy_first : Which → Pointer → Loop W T Q → Loop W T Q
  destroy_first k r l = request_destroy r (set_root k (q.remove r (root_of k l)) l)

  maps-destroy_first :
      (k : Which) (r : Pointer) (l : Loop W T Q)
      → queues (destroy_first k r l) ≡ put_root k (q.remove r (root_of k l)) (queues l)
  maps-destroy_first k r l =
      let root = q.remove r (root_of k l) in
      (IsEnd-request_destroy r (set_root k root l)).maps ∙ maps-set_root k root l

  dead-set_root :
      (k : Which) (root : Q) (p : Pointer) (l : Loop W T Q) → dead p (set_root k root l) ≡ dead p l
  dead-set_root k root p l =
      ap {B = ℕ} (λ w. if (w p).pool then 0 else 1) (wrappers-set_root k root l)

  links-destroy_first :
      (k : Which) (r p : Pointer) (l : Loop W T Q)
      → ((destroy_first k r l).requests p).next_cancelled ≡ (l.requests p).next_cancelled
  links-destroy_first k r p l =
      let root = q.remove r (root_of k l) in
      (IsEnd-request_destroy r (set_root k root l)).links p
      ∙ ap (λ w. (w p).next_cancelled) (wrappers-set_root k root l)

  module _ (laws : IsQueue Q) where
    front-alive :
        (k : Which) (r : Pointer) (l : Loop W T Q)
        → q.front (root_of k l) ≡ some r
        → Once l
        → dead r l ≡ 0
    front-alive k r l e once = omega (
      arith,
      front-count laws (root_of k l) r e,
      placed-put_root k r q.nothing l,
      laws.sum-nothing (is_request r),
      once r,
    )

    owed-destroy_first :
        (k : Which) (r p : Pointer) (l : Loop W T Q)
        → q.front (root_of k l) ≡ some r
        → Once l
        → owed p (destroy_first k r l) ≡ owed p l
    owed-destroy_first k r p l e once =
        let root = root_of k l in
        let (j, less) = laws.sum-remove r root (front-count laws root r e) in
        let alive = front-alive k r l e once in
        let l₁ = set_root k (q.remove r root) l in
        omega (
          arith,
          dead-destroyed r p l₁ (dead-set_root k (q.remove r root) r l ∙ alive),
          dead-set_root k (q.remove r root) p l,
          ap (placed p) (maps-destroy_first k r l),
          placed-put_root k p (q.remove r root) l,
          less (is_request p),
        )

    IsEmptied-after :
        (k : Which) (root : Q) (l l' l'' : Loop W T Q)
        → queues l' ≡ put_root k root (queues l)
        → ((p : Pointer) → owed p l' ≡ owed p l)
        → ((p : Pointer) → (l'.requests p).next_cancelled ≡ (l.requests p).next_cancelled)
        → IsEmptied k l' l''
        → IsEmptied k l l''
    IsEmptied-after k root l l' l'' e o links h = record {
      rest = h.rest;
      maps = h.maps ∙ ap (put_root k h.rest) e ∙ put_root-put_root k root h.rest (queues l);
      empty = h.empty;
      owed_same = λ p. h.owed_same p ∙ o p;
      links = λ p. h.links p ∙ links p;
    }

    put_root_self : (k : Which) (l : Loop W T Q) → put_root k (root_of k l) (queues l) ≡ queues l
    put_root_self of_queued l = refl
    put_root_self of_inactive l = refl
    put_root_self of_refresh l = refl
    put_root_self of_limited l = refl

    pub destroy_map-Emptied :
        (fuel : ℕ) (k : Which) (l : Loop W T Q)
        → size (root_of k l) < fuel
        → Once l
        → (l' : Loop W T Q) × (destroy_map fuel k l ≡ done l') × IsEmptied k l l'
    unfolding destroy_map
    destroy_map-Emptied zero k l h once = ground (arith, h)
    destroy_map-Emptied (suc fuel) k l h once = elim (Option-cases (q.front (root_of k l))) [
      | inl e ↦ (
        l,
        rw (destroy_map, e) refl,
        record {
          rest = root_of k l;
          maps = sym (put_root_self k l);
          empty = λ p. laws.front-none (root_of k l) e (is_request p);
          owed_same = λ p. refl;
          links = λ p. refl;
        },
      )
      | inr (r, e) ↦
          let root = q.remove r (root_of k l) in
          let (j, less) = laws.sum-remove r (root_of k l) (front-count laws (root_of k l) r e) in
          let l₁ = destroy_first k r l in
          let there = root_of-put_root k root l l₁ (maps-destroy_first k r l) in
          let same = λ (p : Pointer). owed-destroy_first k r p l e once in
          let (l', ends, emptied) =
            destroy_map-Emptied fuel k l₁ (omega (arith, h, less (λ i p. 1), ap size there))
              (λ p. omega (arith, same p, once p)) in
          let alive = dead-set_root k root r l ∙ front-alive k r l e once in
          (
            l',
            rw (destroy_map, e, destroy_live-done r (set_root k root l) alive) ends,
            IsEmptied-after k root l l₁ l' (maps-destroy_first k r l) same
                (λ p. links-destroy_first k r p l) emptied,
          )
    ]
