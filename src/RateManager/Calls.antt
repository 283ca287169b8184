-- ===== src/RateManager/Calls.antt =====
-- The manager under any sequence of calls, each at its own time.
use a_curl_library.Base.{
  ℕ, ◌≡◌, ◌⊎◌, refl, sym, ◌∙◌, Bool, inl, inr, Option, none, some, List, [], ◌∷◌, ℤ, All, arith,
  Bool-cases, Option-cases, if◌then◌else◌,
}
use a_curl_library.External.Double.{Double}
use a_curl_library.External.Table.{Table, IsTable}
use a_curl_library.RateManager.{
  RateLimit, Manager, configure, blank_limit, or_blank, can_proceed_limit, start_limit, done_limit,
  backoff_limit, init, at_key, set_limit, can_proceed, start_request, request_done, handle_429,
}

pub data Call (K W : Type 0) : Type 0 where
  initialise : Call K W
  limits : K → ℤ → W → ℕ → ℕ → Call K W
  probes starts : K → Bool → ℕ → Call K W
  finishes rejects : K → ℕ → Call K W

-- The calls whose rate is of some kind.
abbrev pub Allowed : {K W : Type 0} → (W → Type 0) → Call K W → Type 0
Allowed allowed (limits key n rps now later) = allowed rps
Allowed allowed c = Unit {0}

abbrev pub updated : {A : Type 0} → (A → A × ℕ) → Option A → Option A
updated f none = none
updated f (some l) = some (f l).0

module _ {K T W : Type 0} ⦃d : Double W⦄ ⦃t : Table K (RateLimit W) T⦄ where
  unfoldable pub step : Option (Manager K W T) → Call K W → Option (Manager K W T)
  step g initialise = init g
  step g (limits key n rps now later) = set_limit key n rps now later g
  step g (probes key high_priority now) = (can_proceed key high_priority now g).0
  step g (starts key high_priority now) = (start_request key high_priority now g).0
  step g (finishes key now) = request_done key now g
  step g (rejects key now) = (handle_429 key now g).0

  unfoldable pub run : Option (Manager K W T) → List (Call K W) → Option (Manager K W T)
  run g [] = g
  run g (c ∷ cs) = run (step g c) cs

  -- The limit of a key.
  abbrev pub limit_of : K → Option (Manager K W T) → Option (RateLimit W)
  limit_of k none = none
  limit_of k (some m) = t.find k m.limits

  -- Every limit of the manager satisfies `P`.
  pub record Everywhere (P : RateLimit W → Type 0) (g : Option (Manager K W T)) : Type 0 where
    pub at : (k : K) (l : RateLimit W) → limit_of k g ≡ some l → P l

  module _ (laws : IsTable K (RateLimit W) T) where
    -- What a call at one key leaves at every key.
    pub limit_of-at_key :
        (key j : K) (f : RateLimit W → RateLimit W × ℕ) (g : Option (Manager K W T))
        → limit_of j (at_key key f g).0
          ≡ (if t.same j key then updated f (limit_of key g) else limit_of j g)
    unfolding at_key
    limit_of-at_key key j f none = ground arith
    limit_of-at_key key j f (some m) = elim (Option-cases (t.find key m.limits)) [
      | inl e ↦ elim (Bool-cases (t.same j key)) [
        | inl s ↦ ground (arith, (laws.same_iff j key).0 s)
        | inr s ↦ ground arith
      ]
      | inr (l, e) ↦ ground (arith, laws.find-store j key (f l).0 m.limits)
    ]

    module _ {P : RateLimit W → Type 0} where
      at_key-P :
          (key j : K) (f : RateLimit W → RateLimit W × ℕ) (g : Option (Manager K W T))
          → ((l : RateLimit W) → P l → P (f l).0)
          → Everywhere P g
          → (l : RateLimit W) → (o : Option (RateLimit W)) → limit_of key g ≡ o
          → (if t.same j key then updated f o else limit_of j g) ≡ some l
          → P l
      at_key-P key j f g keep h l none e q = ground (arith, h.at j l)
      at_key-P key j f g keep h l (some l₀) e q = ground (arith, h.at j l, keep l₀ (h.at key l₀ e))

      pub at_key-Everywhere :
          (key : K) (f : RateLimit W → RateLimit W × ℕ) (g : Option (Manager K W T))
          → ((l : RateLimit W) → P l → P (f l).0)
          → Everywhere P g
          → Everywhere P (at_key key f g).0
      at_key-Everywhere key f g keep h = record {
        at = λ j l e.
            at_key-P key j f g keep h l (limit_of key g) refl (sym (limit_of-at_key key j f g) ∙ e);
      }

      init-Everywhere : (g : Option (Manager K W T)) → Everywhere P g → Everywhere P (init g)
      unfolding init
      init-Everywhere none h = record { at = λ k l e. cc (laws.find-empty k) }
      init-Everywhere (some m) h = h

      or_blank-P :
          (o : Option (RateLimit W))
          → ((l : RateLimit W) → o ≡ some l → P l)
          → (or_blank o ≡ blank_limit) ⊎ P (or_blank o)
      or_blank-P none h = inl refl
      or_blank-P (some l) h = inr (h l refl)

      set_limit-Everywhere :
          (key : K) (n : ℤ) (rps : W) (now later : ℕ) (g : Option (Manager K W T))
          → ((l : RateLimit W) → (l ≡ blank_limit) ⊎ P l → P (configure n rps now later l))
          → Everywhere P g
          → Everywhere P (set_limit key n rps now later g)
      unfolding set_limit init
      set_limit-Everywhere key n rps now later none fresh h = record {
        at = λ k l e. ground (
          arith,
          fresh blank_limit (inl refl),
          laws.find-empty k,
          laws.find-empty key,
          laws.find-store k key (configure n rps now later blank_limit) t.empty,
        );
      }
      set_limit-Everywhere key n rps now later (some m) fresh h = record {
        at = λ k l e.
            let l₀ = or_blank (t.find key m.limits) in
            ground (
              arith,
              fresh l₀ (or_blank-P (t.find key m.limits) (h.at key)),
              h.at k l,
              laws.find-store k key (configure n rps now later l₀) m.limits,
            );
      }

      -- A property that a fresh limit has and every operation on a limit keeps holds everywhere,
      -- after any calls that `allowed` lets through.
      module _ (allowed : W → Type 0)
          (fresh : (n : ℤ) (rps : W) (now later : ℕ) (l : RateLimit W)
            → allowed rps
            → (l ≡ blank_limit) ⊎ P l
            → P (configure n rps now later l))
          (probe_keeps : (now : ℕ) (b : Bool) (l : RateLimit W)
            → P l
            → P (can_proceed_limit now b l).0)
          (start_keeps : (now : ℕ) (b : Bool) (l : RateLimit W) → P l → P (start_limit now b l).0)
          (done_keeps : (now : ℕ) (l : RateLimit W) → P l → P (done_limit now l))
          (backoff_keeps : (now : ℕ) (l : RateLimit W) → P l → P (backoff_limit now l)) where
        step-Everywhere :
            (g : Option (Manager K W T)) (c : Call K W)
            → Allowed allowed c
            → Everywhere P g
            → Everywhere P (step g c)
        unfolding step can_proceed start_request request_done handle_429
        step-Everywhere g initialise ok h = init-Everywhere g h
        step-Everywhere g (limits key n rps now later) ok h =
            set_limit-Everywhere key n rps now later g (λ l old. fresh n rps now later l ok old) h
        step-Everywhere g (probes key b now) ok h = at_key-Everywhere key _ g (probe_keeps now b) h
        step-Everywhere g (starts key b now) ok h = at_key-Everywhere key _ g (start_keeps now b) h
        step-Everywhere g (finishes key now) ok h = at_key-Everywhere key _ g (done_keeps now) h
        step-Everywhere g (rejects key now) ok h = at_key-Everywhere key _ g (backoff_keeps now) h

        pub run-Everywhere :
            (g : Option (Manager K W T)) (cs : List (Call K W))
            → All (Allowed allowed) cs
            → Everywhere P g
            → Everywhere P (run g cs)
        unfolding run
        run-Everywhere g [] ok h = h
        run-Everywhere g (c ∷ cs) ok h =
            run-Everywhere (step g c) cs ok.1 (step-Everywhere g c ok.0 h)
