-- ===== src/RateManager/Keys.antt =====
-- The map of limits: one key at a time, and `rate_manager_destroy`.
use a_curl_library.Base.{
  ℕ, zero, suc, ◌+◌, ◌<◌, ◌≡◌, ◌≢◌, refl, ◌∙◌, false, ◌⊎◌, Option, none, some, List, [], ◌∷◌, ℤ,
  arith, Bool-cases, Option-cases, inl, inr,
}
use a_curl_library.External.Double.{Double}
use a_curl_library.External.Table.{Table, IsTable}
use a_curl_library.RateManager.{
  RateLimit, Manager, init, at_key, set_limit, can_proceed, start_request, request_done, handle_429,
  drain, destroy,
}
use a_curl_library.RateManager.Calls.{
  Call, initialise, limits, probes, starts, finishes, rejects, step, limit_of, limit_of-at_key,
}

-- The call is not about the key.
abbrev pub Spares : {K W : Type 0} → K → Call K W → Type 0
Spares j initialise = Unit {0}
Spares j (limits key n rps now later) = j ≢ key
Spares j (probes key b now) = j ≢ key
Spares j (starts key b now) = j ≢ key
Spares j (finishes key now) = j ≢ key
Spares j (rejects key now) = j ≢ key

-- The key is in the list.
abbrev pub Has : {K : Type 0} → K → List K → Type 0
Has k [] = ⊥
Has k (x ∷ xs) = (k ≡ x) ⊎ Has k xs

module _ {K T W : Type 0} ⦃d : Double W⦄ ⦃t : Table K (RateLimit W) T⦄ where
  -- Every key with a limit is in the list.
  abbrev pub Freed : Manager K W T → List K → Type 0
  Freed m ks = (k : K) → t.find k m.limits ≢ none → Has k ks

module _ {K T W : Type 0} ⦃d : Double W⦄ ⦃t : Table K (RateLimit W) T⦄
    (laws : IsTable K (RateLimit W) T) where
  not-same : (j k : K) → j ≢ k → t.same j k ≡ false
  not-same j k h = elim (Bool-cases (t.same j k)) [
    | inl e ↦ absurd (h ((laws.same_iff j k).0 e))
    | inr e ↦ e
  ]

  at_key-spares :
      (key j : K) (f : RateLimit W → RateLimit W × ℕ) (g : Option (Manager K W T))
      → j ≢ key
      → limit_of j (at_key key f g).0 ≡ limit_of j g
  at_key-spares key j f g h = limit_of-at_key laws key j f g ∙ rw (not-same j key h)

  init-spares : (j : K) (g : Option (Manager K W T)) → limit_of j (init g) ≡ limit_of j g
  unfolding init
  init-spares j none = laws.find-empty j
  init-spares j (some m) = refl

  set_limit-spares :
      (key j : K) (n : ℤ) (rps : W) (now later : ℕ) (g : Option (Manager K W T))
      → j ≢ key
      → limit_of j (set_limit key n rps now later g) ≡ limit_of j g
  unfolding set_limit init
  set_limit-spares key j n rps now later none h =
      laws.find-store j key _ _ ∙ rw (not-same j key h) (laws.find-empty j)
  set_limit-spares key j n rps now later (some m) h =
      laws.find-store j key _ _ ∙ rw (not-same j key h)

  -- A call about one key leaves the limit of every other key as it was.
  pub step-Spares :
      (j : K) (g : Option (Manager K W T)) (c : Call K W)
      → Spares j c
      → limit_of j (step g c) ≡ limit_of j g
  unfolding step can_proceed start_request request_done handle_429
  step-Spares j g initialise h = init-spares j g
  step-Spares j g (limits key n rps now later) h = set_limit-spares key j n rps now later g h
  step-Spares j g (probes key b now) h = at_key-spares key j _ g h
  step-Spares j g (starts key b now) h = at_key-spares key j _ g h
  step-Spares j g (finishes key now) h = at_key-spares key j _ g h
  step-Spares j g (rejects key now) h = at_key-spares key j _ g h

  -- The nodes of a manager.
  abbrev pub size : Manager K W T → ℕ
  size m = t.total (λ _. 1) m.limits

  size-erase :
      (k : K) (m : Manager K W T)
      → t.find k m.limits ≢ none
      → size (record { limits = t.erase k m.limits }) + 1 ≡ size m
  size-erase k m h = elim (Option-cases (t.find k m.limits)) [
    | inl e ↦ absurd (h e)
    | inr (l, e) ↦ ground (arith, laws.total-erase (λ _. 1) k m.limits)
  ]

  drain_all :
      (fuel : ℕ) (m : Manager K W T)
      → size m < fuel
      → (ks : List K) × (drain fuel m ≡ some ks) × Freed m ks
  unfolding drain
  drain_all zero m h = absurd (omega arith)
  drain_all (suc fuel) m h = elim (Option-cases (t.first m.limits)) [
    | inl e ↦ ([], rw (e, drain), λ k p. absurd (p (laws.first-none m.limits e k)))
    | inr (j, e) ↦
        let rest : Manager K W T = record { limits = t.erase j m.limits } in
        let (ks, q, freed) =
          drain_all fuel rest (omega (arith, size-erase j m (laws.first-some m.limits j e))) in
        (
          j ∷ ks,
          rw (e, drain, q),
          λ k p. elim (Bool-cases (t.same k j)) [
            | inl s ↦ inl ((laws.same_iff k j).0 s)
            | inr s ↦ inr (freed k (rw (laws.find-erase k j m.limits, s) p))
          ],
        )
  ]

  -- `rate_manager_destroy` comes to an end, leaves no manager, and frees the limit of every key.
  pub destroy_frees_all :
      (m : Manager K W T) → (ks : List K) × (destroy (some m) ≡ some (none, ks)) × Freed m ks
  unfolding destroy
  destroy_frees_all m =
      let (ks, q, freed) = drain_all (size m + 1) m (omega arith) in (ks, rw (q, destroy), freed)
