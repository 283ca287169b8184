-- ===== src/EventLoop/Cuts.antt =====
-- A request is taken out of the map that it stands in, and then put into another or destroyed.
use a_curl_library.Base.{◌+◌, ◌<◌, ◌≡◌, refl, false, ◌==◌, pos, ◌-ℤ◌, arith, if◌then◌else◌}
use a_curl_library.External.Queue.{Queue, IsQueue, count, is_request}
use a_curl_library.Request.{Pointer}
use a_curl_library.Loop.{Loop}
use a_curl_library.EventLoop.{User}
use a_curl_library.EventLoop.Frame.{dead}
use a_curl_library.EventLoop.Conserve.{owed}
use a_curl_library.EventLoop.Moves.{IsCounted, IsKept, counted-remove}
use a_curl_library.EventLoop.Put.{Put, Put-balance, Put-IsCounted}

module _ {W T Q : Type 0} ⦃q : Queue Q⦄ where
  -- `r` stands in one map less, with its counter, and the other requests where they did.
  pub record IsCut (r : Pointer) (l l' : Loop W T Q) : Type 0 where
    pub balance : (p : Pointer) → owed p l' + (if r == p then 1 else 0) ≡ owed p l
    pub counted : IsCounted l → IsCounted l'
    pub queued :
        (p : Pointer) → (r == p) ≡ false → count p l'.queued_requests ≡ count p l.queued_requests
    pub inactive :
        (p : Pointer)
        → (r == p) ≡ false
        → count p l'.inactive_requests ≡ count p l.inactive_requests
    pub refresh :
        (p : Pointer) → (r == p) ≡ false → count p l'.refresh_requests ≡ count p l.refresh_requests

  module _ (laws : IsQueue Q) where
    -- Once it is put somewhere, it is not lost.
    pub IsKept-IsCut :
        (u : User W) (r : Pointer) (l l₁ l' : Loop W T Q)
        → IsCut r l l₁
        → Put u r l₁ l'
        → IsKept u l l'
    IsKept-IsCut u r l l₁ l' cut put = record {
      conserved = λ kept once p.
          let alive : dead r l₁ ≡ 0 = ground (arith, cut.balance r, once r) in
          omega (arith, Put-balance laws u r l₁ l' put kept alive p, cut.balance p);
      counted = λ c. Put-IsCounted laws u r l₁ l' put (cut.counted c);
    }

    pub IsCut-queued :
        (r : Pointer) (l : Loop W T Q)
        → 0 < count r l.queued_requests
        → IsCut r l (record l {
          queued_requests = q.remove r l.queued_requests;
          num_queued_requests = l.num_queued_requests -ℤ pos 1;
        })
    IsCut-queued r l here =
        let (j, less) = laws.sum-remove r l.queued_requests here in
        record {
          balance = λ p. omega (arith, less (is_request p));
          counted = λ c. record {
            queued = counted-remove l.queued_requests _ _ _ (less (λ k p. 1)) refl c.queued;
            inactive = c.inactive;
            refresh = c.refresh;
          };
          queued = λ p e. ground (arith, less (is_request p), e);
          inactive = λ p e. refl;
          refresh = λ p e. refl;
        }

    pub IsCut-refresh :
        (r : Pointer) (l : Loop W T Q)
        → 0 < count r l.refresh_requests
        → IsCut r l (record l {
          refresh_requests = q.remove r l.refresh_requests;
          num_refresh_requests = l.num_refresh_requests -ℤ pos 1;
        })
    IsCut-refresh r l here =
        let (j, less) = laws.sum-remove r l.refresh_requests here in
        record {
          balance = λ p. omega (arith, less (is_request p));
          counted = λ c. record {
            queued = c.queued;
            inactive = c.inactive;
            refresh = counted-remove l.refresh_requests _ _ _ (less (λ k p. 1)) refl c.refresh;
          };
          queued = λ p e. refl;
          inactive = λ p e. refl;
          refresh = λ p e. ground (arith, less (is_request p), e);
        }

    pub IsCut-inactive :
        (r : Pointer) (l : Loop W T Q)
        → 0 < count r l.inactive_requests
        → IsCut r l (record l {
          inactive_requests = q.remove r l.inactive_requests;
          num_inactive_requests = l.num_inactive_requests -ℤ pos 1;
        })
    IsCut-inactive r l here =
        let (j, less) = laws.sum-remove r l.inactive_requests here in
        record {
          balance = λ p. omega (arith, less (is_request p));
          counted = λ c. record {
            queued = c.queued;
            inactive = counted-remove l.inactive_requests _ _ _ (less (λ k p. 1)) refl c.inactive;
            refresh = c.refresh;
          };
          queued = λ p e. refl;
          inactive = λ p e. ground (arith, less (is_request p), e);
          refresh = λ p e. refl;
        }
