-- ===== src/EventLoop/Conserve.antt =====
-- Sums over the maps of the loop, and what one round of `move_inactive_requests_to_queue` does to
-- them.
use a_curl_library.Base.{
  ℕ, ◌+◌, ◌<◌, ◌≡◌, refl, ap, ◌∙◌, sym, subst, Bool, true, false, some, ℤ, pos, ◌+ℤ◌, arith,
  if◌then◌else◌,
}
use a_curl_library.External.Queue.{Queue, IsQueue, count, is_request, at_key}
use a_curl_library.Request.{Pointer}
use a_curl_library.Loop.{Loop}
use a_curl_library.EventLoop.{User}
use a_curl_library.EventLoop.Frame.{Queues, queues, dead}
use a_curl_library.EventLoop.Outcome.{
  KeepsPool, Outcome, Untouched, Buried, put_queued, put_limited, queued, limited, ended,
}

module _ {Q : Type 0} ⦃q : Queue Q⦄ where
  -- the number of nodes
  abbrev pub size : Q → ℕ
  size m = q.sum (λ k p. 1) m

  -- how often a request stands in the maps that a start writes, and in all four
  abbrev pub moved : Pointer → Queues Q → ℕ
  moved p m = count p m.queued + count p m.limited

  abbrev pub placed : Pointer → Queues Q → ℕ
  placed p m = moved p m + (count p m.inactive + count p m.refresh)

  -- a counter and its map, where neither changes
  pub counted-same : (m m' : Q) (n n' : ℤ) → m' ≡ m → n' ≡ n → n ≡ pos (size m) → n' ≡ pos (size m')
  counted-same m m' n n' e x h = x ∙ h ∙ ap (λ o. pos (size o)) (sym e)

  module _ (laws : IsQueue Q) where
    pub front-count : (m : Q) (r : Pointer) → q.front m ≡ some r → 0 < count r m
    front-count m r e =
        let (k, there, low) = laws.front-some m r e in
        omega (arith, there, laws.sum_mono (at_key k r) (is_request r) m (λ j p. ground arith))

    -- a counter and its map, where a request is added
    pub counted-insert :
        (k : ℕ) (r : Pointer) (m m' : Q) (n n' : ℤ)
        → m' ≡ q.insert k r m
        → n' ≡ n +ℤ pos 1
        → n ≡ pos (size m)
        → n' ≡ pos (size m')
    counted-insert k r m m' n n' e x h =
        ground (arith, x, h, ap size e, laws.sum-insert (λ j p. 1) k r m)

module _ {W T Q : Type 0} ⦃q : Queue Q⦄ where
  abbrev pub moving : Pointer → Loop W T Q → ℕ
  moving p l = moved p (queues l) + dead p l

  -- In how many maps a request stands, and one for a request that was destroyed.
  abbrev pub owed : Pointer → Loop W T Q → ℕ
  owed p l = placed p (queues l) + dead p l

  -- One round over the map `root`, which the loop has no other name for.
  pub record Tried (u : User W) (r : Pointer) (root root' : Q) (l l' : Loop W T Q) (more : Bool)
      : Type 0 where
    pub inactive : l'.inactive_requests ≡ l.inactive_requests
    pub refresh : l'.refresh_requests ≡ l.refresh_requests
    pub num_inactive : l'.num_inactive_requests ≡ l.num_inactive_requests
    pub num_refresh : l'.num_refresh_requests ≡ l.num_refresh_requests
    pub counted :
        l.num_queued_requests ≡ pos (size l.queued_requests)
        → l'.num_queued_requests ≡ pos (size l'.queued_requests)
    pub smaller : more ≡ true → size root' + 1 ≡ size root
    pub rest : more ≡ false → root' ≡ root
    pub balance :
        KeepsPool u
        → dead r l ≡ 0
        → (p : Pointer) → count p root' + moving p l' ≡ count p root + moving p l

  module _ (laws : IsQueue Q) (u : User W) (r : Pointer) (root : Q) (l l' : Loop W T Q) where
    Tried-queued :
        0 < count r root
        → (k : ℕ) → queues l' ≡ put_queued k r (queues l)
        → Untouched u l l'
        → Tried u r root (q.remove r root) l l' true
    Tried-queued here k e pools =
        let (j, less) = laws.sum-remove r root here in
        record {
          inactive = ap (λ m. m.inactive) e;
          refresh = ap (λ m. m.refresh) e;
          num_inactive = ap (λ m. m.num_inactive) e;
          num_refresh = ap (λ m. m.num_refresh) e;
          counted =
              counted-insert laws k r _ _ _ _ (ap (λ m. m.queued) e) (ap (λ m. m.num_queued) e);
          smaller = λ _. less (λ i p. 1);
          rest = λ h. cc;
          balance = λ kept alive p. omega (
            arith,
            less (is_request p),
            ap (moved p) e,
            laws.sum-insert (is_request p) k r l.queued_requests,
            ap {B = ℕ} (λ b. if b then 0 else 1) (pools kept p),
          );
        }

    Tried-limited :
        0 < count r root
        → (k : ℕ) → queues l' ≡ put_limited k r (queues l)
        → Untouched u l l'
        → Tried u r root (q.remove r root) l l' true
    Tried-limited here k e pools =
        let (j, less) = laws.sum-remove r root here in
        record {
          inactive = ap (λ m. m.inactive) e;
          refresh = ap (λ m. m.refresh) e;
          num_inactive = ap (λ m. m.num_inactive) e;
          num_refresh = ap (λ m. m.num_refresh) e;
          counted = λ h. counted-same _ _ _ _ (ap (λ m. m.queued) e) (ap (λ m. m.num_queued) e) h;
          smaller = λ _. less (λ i p. 1);
          rest = λ h. cc;
          balance = λ kept alive p. omega (
            arith,
            less (is_request p),
            ap (moved p) e,
            laws.sum-insert (is_request p) k r l.rate_limited_requests,
            ap {B = ℕ} (λ b. if b then 0 else 1) (pools kept p),
          );
        }

    Tried-ended :
        0 < count r root
        → queues l' ≡ queues l
        → Buried u r l l'
        → Tried u r root (q.remove r root) l l' true
    Tried-ended here e pools =
        let (j, less) = laws.sum-remove r root here in
        record {
          inactive = ap (λ m. m.inactive) e;
          refresh = ap (λ m. m.refresh) e;
          num_inactive = ap (λ m. m.num_inactive) e;
          num_refresh = ap (λ m. m.num_refresh) e;
          counted = λ h. counted-same _ _ _ _ (ap (λ m. m.queued) e) (ap (λ m. m.num_queued) e) h;
          smaller = λ _. less (λ i p. 1);
          rest = λ h. cc;
          balance = λ kept alive p.
              ground (arith, less (is_request p), ap (moved p) e, pools kept p, alive);
        }

    pub Tried-Outcome :
        (b : Bool)
        → 0 < count r root
        → Outcome u r l l' b
        → Tried u r root (q.remove r root) l l' true
    Tried-Outcome b here (queued k e pools) = Tried-queued here k e pools
    Tried-Outcome b here (limited k e pools) = Tried-limited here k e pools
    Tried-Outcome b here (ended e pools) = Tried-ended here e pools

    pub Tried-same : l' ≡ l → Tried u r root root l l' false
    Tried-same e = record {
      inactive = ap (λ m. m.inactive_requests) e;
      refresh = ap (λ m. m.refresh_requests) e;
      num_inactive = ap (λ m. m.num_inactive_requests) e;
      num_refresh = ap (λ m. m.num_refresh_requests) e;
      counted = λ h. subst (λ m. m.num_queued_requests ≡ pos (size m.queued_requests)) (sym e) h;
      smaller = λ h. cc;
      rest = λ h. refl;
      balance = λ kept alive p. ap (λ m. count p root + moving p m) e;
    }
