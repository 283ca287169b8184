-- ===== src/EventLoop/Beside.antt =====
-- What the loop over the rate-limited requests keeps while their map is taken out of the loop.
use a_curl_library.Base.{ℕ, ◌+◌, ◌≤◌, ◌≡◌, refl, ap, ◌∙◌, Bool, none, some, arith}
use a_curl_library.External.Queue.{Queue, IsQueue, count, is_request}
use a_curl_library.Request.{Pointer}
use a_curl_library.Loop.{Loop}
use a_curl_library.EventLoop.{User}
use a_curl_library.EventLoop.Outcome.{KeepsPool}
use a_curl_library.EventLoop.Conserve.{owed, Tried, front-count, counted-same}
use a_curl_library.EventLoop.Moves.{IsCounted, IsKept}

module _ {W T Q : Type 0} ⦃q : Queue Q⦄ where
  -- as `IsKept`, where the map `root` has been taken out of the loop
  pub record KeptBeside (u : User W) (root root' : Q) (l l' : Loop W T Q) : Type 0 where
    pub conserved :
        KeepsPool u
        → ((p : Pointer) → owed p l + count p root ≤ 1)
        → (p : Pointer) → owed p l' + count p root' ≡ owed p l + count p root
    pub counted : IsCounted l → IsCounted l'

  pub beside_trans :
      (u : User W) (root root' root'' : Q) (l l' l'' : Loop W T Q)
      → KeptBeside u root root' l l'
      → KeptBeside u root' root'' l' l''
      → KeptBeside u root root'' l l''
  beside_trans u root root' root'' l l' l'' a b = record {
    conserved = λ kept once p.
        b.conserved kept (λ o. omega (arith, a.conserved kept once o, once o)) p
        ∙ a.conserved kept once p;
    counted = λ h. b.counted (a.counted h);
  }

  pub beside_refl : (u : User W) (root : Q) (l : Loop W T Q) → KeptBeside u root root l l
  beside_refl u root l = record { conserved = λ kept once p. refl; counted = λ h. h }

  module _ (laws : IsQueue Q) (u : User W) (r : Pointer) (root root' : Q) (l l' : Loop W T Q) where
    pub beside-Tried :
        (more : Bool)
        → q.front root ≡ some r
        → Tried u r root root' l l' more
        → KeptBeside u root root' l l'
    beside-Tried more e h = record {
      conserved = λ kept once p.
          let here = front-count laws root r e in
          omega (
            arith,
            h.balance kept (omega (arith, here, once r)) p,
            ap (count p) h.inactive,
            ap (count p) h.refresh,
          );
      counted = λ c. record {
        queued = h.counted c.queued;
        inactive = counted-same _ _ _ _ h.inactive h.num_inactive c.inactive;
        refresh = counted-same _ _ _ _ h.refresh h.num_refresh c.refresh;
      };
    }

  module _ (laws : IsQueue Q) (u : User W) where
    pub beside-merge :
        (r : Pointer) (k : ℕ) (root : Q) (l : Loop W T Q)
        → q.front l.rate_limited_requests ≡ some r
        → KeptBeside u root
            (q.insert k r root)
            l
            (record l { rate_limited_requests = q.remove r l.rate_limited_requests })
    beside-merge r k root l e =
        let here = front-count laws l.rate_limited_requests r e in
        let (j, less) = laws.sum-remove r l.rate_limited_requests here in
        record {
          conserved = λ kept once p.
              omega (arith, less (is_request p), laws.sum-insert (is_request p) k r root);
          counted = λ c. record { queued = c.queued; inactive = c.inactive; refresh = c.refresh };
        }

    -- The map is taken out, and what is left of it put back.
    pub IsKept-beside :
        (root all : Q) (l l' : Loop W T Q)
        → l.rate_limited_requests ≡ root
        → q.front l'.rate_limited_requests ≡ none
        → KeptBeside u root all (record l { rate_limited_requests = q.nothing }) l'
        → IsKept u l (record l' { rate_limited_requests = all })
    IsKept-beside root all l l' e nothing h = record {
      conserved = λ kept once p.
          let gone = λ (o : Pointer). laws.sum-nothing (is_request o) in
          let same = ap (count p) e in
          omega (
            arith,
            h.conserved kept (λ o. omega (arith, once o, gone o, ap (count o) e)) p,
            gone p,
            same,
            laws.front-none l'.rate_limited_requests nothing (is_request p),
          );
      counted = λ c.
          let c' =
            h.counted (record { queued = c.queued; inactive = c.inactive; refresh = c.refresh }) in
          record { queued = c'.queued; inactive = c'.inactive; refresh = c'.refresh };
    }
