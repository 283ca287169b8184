-- ===== src/EventLoop/Moves.antt =====
-- The loops of `move_inactive_requests_to_queue` over the refresh and the inactive requests.
use a_curl_library.Base.{
  ℕ, zero, suc, ◌+◌, ◌≤◌, ◌<◌, ◌≡◌, refl, ap, ◌∙◌, subst, true, false, Option, some, ℤ, pos, ◌-ℤ◌,
  arith, Bool-cases, Option-cases, inl, inr,
}
use a_curl_library.External.Double.{Double}
use a_curl_library.External.Table.{Table}
use a_curl_library.External.Queue.{Queue, IsQueue, count}
use a_curl_library.RateManager.{RateLimit}
use a_curl_library.Request.{Text, Pointer}
use a_curl_library.Loop.{Node, Loop}
use a_curl_library.EventLoop.{Sys, User, on_loop}
use a_curl_library.EventLoop.Move.{try_start, move_refresh, move_inactive}
use a_curl_library.EventLoop.Outcome.{KeepsPool}
use a_curl_library.EventLoop.Conserve.{size, owed, Tried, front-count, counted-same}
use a_curl_library.EventLoop.Tries.{Tried-try_start}

module _ {Q : Type 0} ⦃q : Queue Q⦄ where
  -- a counter that follows its map down by one
  pub counted-remove :
      (m m' : Q) (n n' : ℤ)
      → size m' + 1 ≡ size m
      → n' ≡ n -ℤ pos 1
      → n ≡ pos (size m)
      → n' ≡ pos (size m')
  counted-remove m m' n n' e x h = ground (arith, e, x, h)

module _ {W T Q : Type 0} ⦃q : Queue Q⦄ where
  -- No request stands in two maps, and none that was destroyed stands in one.
  abbrev pub Once : Loop W T Q → Type 0
  Once l = (p : Pointer) → owed p l ≤ 1

  -- The counters are the sizes of their maps.
  pub record IsCounted (l : Loop W T Q) : Type 0 where
    pub queued : l.num_queued_requests ≡ pos (size l.queued_requests)
    pub inactive : l.num_inactive_requests ≡ pos (size l.inactive_requests)
    pub refresh : l.num_refresh_requests ≡ pos (size l.refresh_requests)

  pub record IsKept (u : User W) (l l' : Loop W T Q) : Type 0 where
    pub conserved : KeepsPool u → Once l → (p : Pointer) → owed p l' ≡ owed p l
    pub counted : IsCounted l → IsCounted l'

  pub IsKept-trans :
      (u : User W) (l l' l'' : Loop W T Q) → IsKept u l l' → IsKept u l' l'' → IsKept u l l''
  IsKept-trans u l l' l'' a b = record {
    conserved = λ kept once p.
        b.conserved kept (λ o. omega (arith, a.conserved kept once o, once o)) p
        ∙ a.conserved kept once p;
    counted = λ h. b.counted (a.counted h);
  }

  pub IsKept-refl : (u : User W) (l : Loop W T Q) → IsKept u l l
  IsKept-refl u l = record { conserved = λ kept once p. refl; counted = λ h. h }

  module _ (laws : IsQueue Q) (u : User W) (r : Pointer) (root : Q) (l l' : Loop W T Q) where
    IsKept-refresh_on :
        q.front l.refresh_requests ≡ some r
        → Tried u r l.refresh_requests root l l' true
        → IsKept u l (record l' {
          refresh_requests = root;
          num_refresh_requests = l'.num_refresh_requests -ℤ pos 1;
        })
    IsKept-refresh_on e h = record {
      conserved = λ kept once p.
          let here = front-count laws l.refresh_requests r e in
          omega (arith, h.balance kept (omega (arith, here, once r)) p, ap (count p) h.inactive);
      counted = λ c. record {
        queued = h.counted c.queued;
        inactive = counted-same _ _ _ _ h.inactive h.num_inactive c.inactive;
        refresh =
            counted-remove l.refresh_requests root _ _ (h.smaller refl)
              (ap (λ z. z -ℤ pos 1) h.num_refresh) c.refresh;
      };
    }

    IsKept-refresh_off :
        q.front l.refresh_requests ≡ some r
        → Tried u r l.refresh_requests root l l' false
        → IsKept u l (record l' { refresh_requests = root })
    IsKept-refresh_off e h = record {
      conserved = λ kept once p.
          let here = front-count laws l.refresh_requests r e in
          omega (arith, h.balance kept (omega (arith, here, once r)) p, ap (count p) h.inactive);
      counted = λ c. record {
        queued = h.counted c.queued;
        inactive = counted-same _ _ _ _ h.inactive h.num_inactive c.inactive;
        refresh = counted-same _ _ _ _ (h.rest refl) h.num_refresh c.refresh;
      };
    }

    IsKept-inactive_on :
        q.front l.inactive_requests ≡ some r
        → Tried u r l.inactive_requests root l l' true
        → IsKept u l (record l' {
          inactive_requests = root;
          num_inactive_requests = l'.num_inactive_requests -ℤ pos 1;
        })
    IsKept-inactive_on e h = record {
      conserved = λ kept once p.
          let here = front-count laws l.inactive_requests r e in
          omega (arith, h.balance kept (omega (arith, here, once r)) p, ap (count p) h.refresh);
      counted = λ c. record {
        queued = h.counted c.queued;
        refresh = counted-same _ _ _ _ h.refresh h.num_refresh c.refresh;
        inactive =
            counted-remove l.inactive_requests root _ _ (h.smaller refl)
              (ap (λ z. z -ℤ pos 1) h.num_inactive) c.inactive;
      };
    }

    IsKept-inactive_off :
        q.front l.inactive_requests ≡ some r
        → Tried u r l.inactive_requests root l l' false
        → IsKept u l (record l' { inactive_requests = root })
    IsKept-inactive_off e h = record {
      conserved = λ kept once p.
          let here = front-count laws l.inactive_requests r e in
          omega (arith, h.balance kept (omega (arith, here, once r)) p, ap (count p) h.refresh);
      counted = λ c. record {
        queued = h.counted c.queued;
        refresh = counted-same _ _ _ _ h.refresh h.num_refresh c.refresh;
        inactive = counted-same _ _ _ _ (h.rest refl) h.num_inactive c.inactive;
      };
    }

-- A loop that comes to its end, and what it has kept then.
module _ {W T Q M : Type 0} ⦃q : Queue Q⦄ where
  pub record Ends (u : User W) (s : Sys W T Q M) (o : Option (Sys W T Q M)) : Type 0 where
    pub end : Sys W T Q M
    pub same : o ≡ some end
    pub kept : IsKept u s.loop end.loop

  pub Ends-after :
      (u : User W) (s s' : Sys W T Q M) (o : Option (Sys W T Q M))
      → IsKept u s.loop s'.loop
      → Ends u s' o
      → Ends u s o
  Ends-after u s s' o h e = record {
    end = e.end;
    same = e.same;
    kept = IsKept-trans u s.loop s'.loop e.end.loop h e.kept;
  }

module _ {W T Q M : Type 0} ⦃d : Double W⦄ ⦃t : Table ℕ Node T⦄ ⦃m : Table Text (RateLimit W) M⦄
    ⦃q : Queue Q⦄ (laws : IsQueue Q) (u : User W) where
  pub move_refresh-Ends :
      (fuel : ℕ) (s : Sys W T Q M)
      → size s.loop.refresh_requests < fuel
      → Ends u s (move_refresh u fuel s)
  unfolding move_refresh
  move_refresh-Ends zero s h = ground (arith, h)
  move_refresh-Ends (suc fuel) s h = elim (Option-cases (q.front s.loop.refresh_requests)) [
    | inl e ↦ rw (e, move_refresh) (record { end = s; same = refl; kept = IsKept-refl u s.loop })
    | inr (r, e) ↦
        let (s', root, more) = try_start u r s.loop.refresh_requests s in
        let tried = Tried-try_start u laws r s.loop.refresh_requests s e in
        elim (Bool-cases more) [
          | inl x ↦
              let on = subst (Tried u r s.loop.refresh_requests root s.loop s'.loop) x tried in
              let s₁ =
                on_loop
                  (λ l. record l {
                    refresh_requests = root;
                    num_refresh_requests = l.num_refresh_requests -ℤ pos 1;
                  })
                  s' in
              rw (e, move_refresh, x)
                (Ends-after u s s₁ _ (IsKept-refresh_on laws u r root s.loop s'.loop e on)
                  (move_refresh-Ends fuel s₁ (omega (arith, h, on.smaller refl))))
          | inr x ↦
              let off = subst (Tried u r s.loop.refresh_requests root s.loop s'.loop) x tried in
              rw (e, move_refresh, x)
                (record {
                  end = on_loop (λ l. record l { refresh_requests = root }) s';
                  same = refl;
                  kept = IsKept-refresh_off laws u r root s.loop s'.loop e off;
                })
        ]
  ]

  pub move_inactive-Ends :
      (fuel : ℕ) (s : Sys W T Q M)
      → size s.loop.inactive_requests < fuel
      → Ends u s (move_inactive u fuel s)
  unfolding move_inactive
  move_inactive-Ends zero s h = ground (arith, h)
  move_inactive-Ends (suc fuel) s h = elim (Option-cases (q.front s.loop.inactive_requests)) [
    | inl e ↦ rw (e, move_inactive) (record { end = s; same = refl; kept = IsKept-refl u s.loop })
    | inr (r, e) ↦
        let (s', root, more) = try_start u r s.loop.inactive_requests s in
        let tried = Tried-try_start u laws r s.loop.inactive_requests s e in
        elim (Bool-cases more) [
          | inl x ↦
              let on = subst (Tried u r s.loop.inactive_requests root s.loop s'.loop) x tried in
              let s₁ =
                on_loop
                  (λ l. record l {
                    inactive_requests = root;
                    num_inactive_requests = l.num_inactive_requests -ℤ pos 1;
                  })
                  s' in
              rw (e, move_inactive, x)
                (Ends-after u s s₁ _ (IsKept-inactive_on laws u r root s.loop s'.loop e on)
                  (move_inactive-Ends fuel s₁ (omega (arith, h, on.smaller refl))))
          | inr x ↦
              let off = subst (Tried u r s.loop.inactive_requests root s.loop s'.loop) x tried in
              rw (e, move_inactive, x)
                (record {
                  end = on_loop (λ l. record l { inactive_requests = root }) s';
                  same = refl;
                  kept = IsKept-inactive_off laws u r root s.loop s'.loop e off;
                })
        ]
  ]
