-- ===== src/Request/Submission.antt =====
-- What a submission changes.
use a_curl_library.Base.{
  ℕ, ◌+◌, ◌≤◌, ◌≡◌, ◌≢◌, ◌⊎◌, refl, ap, sym, subst, ◌∙◌, true, false, ◌∷◌, ℤ, arith, is_some,
  ==_iff, if◌then◌else◌, some, none, Option-cases, Bool-cases, inl, inr,
}
use a_curl_library.Request.{Text, Pointer, Request, Wrapper}
use a_curl_library.Request.Config.{Defaults, default_method, default_on_retry}
use a_curl_library.Request.Submit.{
  is_zero, start_at, implied_method, prepare, is_submittable, make_pending, submit,
}
use a_curl_library.Loop.{Loop, write_request}

start_at-le : (pri : ℤ) (now : ℕ) → start_at pri now ≤ now
start_at-le pri now = ground arith

-- A request that was submitted at the time `now`: first of the pending ones, marked, counted once,
-- with a method and, where it may be retried, a retry policy, and due at once or earlier. Nothing of
-- any other request, of the resources or of the maps has changed.
pub record Submitted {W T Q : Type 0} (now : ℕ) (r : Pointer) (s s' : Loop W T Q) : Type 0 where
  pub first : s'.pending_requests ≡ r ∷ s.pending_requests
  pub marked : (s'.requests r).is_pending ≡ true
  pub counted : s'.metrics.total_requests ≡ s.metrics.total_requests + 1
  pub with_method : is_some (s'.requests r).method ≡ true
  pub with_retry :
      is_zero (s'.requests r).max_retries ≡ false → is_some (s'.requests r).on_retry ≡ true
  pub due : (s'.requests r).next_retry_at ≤ now
  pub started : (s'.requests r).start_time ≡ now
  pub others : (p : Pointer) → p ≢ r → s'.requests p ≡ s.requests p
  pub kept :
      (s'.resources ≡ s.resources)
      × (s'.inactive_requests ≡ s.inactive_requests)
      × (s'.queued_requests ≡ s.queued_requests)

-- What a submission asks of a request: a URL, and neither the mark of a pending request nor that of a
-- transfer.
pub record IsFree {W : Type 0} (w : Wrapper W) : Type 0 where
  pub address : Text
  pub with_url : w.url ≡ some address
  pub unmarked : w.is_pending ≡ false
  pub no_transfer : w.multi_handle ≡ false

abbrev pub IsBarred : {W : Type 0} → Wrapper W → Type 0
IsBarred w = (w.url ≡ none) ⊎ ((w.is_pending ≡ true) ⊎ (w.multi_handle ≡ true))

module _ {W : Type 0} where
  submittable-IsFree : (w : Wrapper W) → is_submittable w ≡ true → IsFree w
  submittable-IsFree w h = elim (Option-cases w.url) [
    | inl e ↦ cc (rw (is_submittable, e) at h)
    | inr (t, e) ↦ record {
      address = t;
      with_url = e;
      unmarked = ground (arith, h, e);
      no_transfer = ground (arith, h, e);
    }
  ]

  refused-IsBarred : (w : Wrapper W) → is_submittable w ≡ false → IsBarred w
  refused-IsBarred w h = elim (Option-cases w.url) [
    | inl e ↦ inl e
    | inr (t, e) ↦ inr (ground (arith, h, e))
  ]

  default_method-some :
      (text : Text) (req : Request W) → is_some (default_method text req).method ≡ true
  default_method-some text req = ground arith

  retry_keeps :
      (f : Defaults) (req : Request W)
      → (is_some (default_on_retry f req).method ≡ is_some req.method)
        × ((default_on_retry f req).max_retries ≡ req.max_retries)
        × (is_some (default_on_retry f req).on_retry ≡ true)
  retry_keeps f req = (ground arith, ground arith, ground arith)

  pending-refused : (w : Wrapper W) → w.is_pending ≡ true → is_submittable w ≡ false
  pending-refused w h = ground (arith, h)

  prepared :
      (f : Defaults) (now : ℕ) (pri : ℤ) (req : Request W)
      → let req' = prepare f now pri req in
        (is_some req'.method ≡ true)
        × (is_zero req'.max_retries ≡ false → is_some req'.on_retry ≡ true)
        × (req'.next_retry_at ≤ now)
        × (req'.start_time ≡ now)
  unfolding prepare
  prepared f now pri req =
      let r₁ = default_method (implied_method req.post_data) req in
      let (method, retries, retry) = retry_keeps f r₁ in
      let with = default_method-some (implied_method req.post_data) req in
      elim (Bool-cases (is_zero r₁.max_retries)) [
        | inl z ↦
            rw (prepare, z)
              (
                with,
                λ x. cc (x, z),
                start_at-le (if is_zero pri then r₁.priority else pri) now,
                refl,
              )
        | inr z ↦
            rw (prepare, z)
              (
                method ∙ with,
                λ x. retry,
                start_at-le (if is_zero pri then (default_on_retry f r₁).priority else pri) now,
                refl,
              )
      ]

module _ {W T Q : Type 0} where
  read_back : (r : Pointer) (w : Wrapper W) (s : Loop W T Q) → (write_request r w s).requests r ≡ w
  read_back r w s = rw ((==_iff r r).1 refl) refl

  made-Submitted :
      (now : ℕ) (r : Pointer) (req' : Request W) (s : Loop W T Q)
      → (is_some req'.method ≡ true)
        × (is_zero req'.max_retries ≡ false → is_some req'.on_retry ≡ true)
        × (req'.next_retry_at ≤ now)
        × (req'.start_time ≡ now)
      → Submitted now r s (make_pending r req' s)
  unfolding make_pending
  made-Submitted now r req' s (method, retry, due, started) =
      let w : Wrapper W = record (s.requests r) { request = req'; is_pending = true } in
      let back = read_back r w s in
      record {
        first = refl;
        marked = ap (λ v. v.is_pending) back;
        counted = refl;
        with_method = ap (λ v. is_some v.method) back ∙ method;
        with_retry = λ x.
            ap (λ v. is_some v.on_retry) back
            ∙ retry (sym (ap (λ v. is_zero v.max_retries) back) ∙ x);
        due = subst (λ v. v.next_retry_at ≤ now) (sym back) due;
        started = ap (λ v. v.start_time) back ∙ started;
        others = λ p ne. ground (arith, ne);
        kept = (refl, refl, refl);
      }

  refused :
      (f : Defaults) (now : ℕ) (r : Pointer) (pri : ℤ) (s : Loop W T Q)
      → is_submittable (s.requests r) ≡ false
      → submit f now r pri s ≡ (s, false)
  unfolding submit
  refused f now r pri s h = rw (submit, h) refl

  -- A request that has a URL, is not marked as pending and is not a transfer is submitted; one that
  -- has no URL, is marked or is a transfer is refused, and nothing changes.
  pub submit_outcome :
      (f : Defaults) (now : ℕ) (r : Pointer) (pri : ℤ) (s : Loop W T Q)
      → let (s', accepted) = submit f now r pri s in
        (IsFree (s.requests r) × (accepted ≡ true) × Submitted now r s s')
        ⊎ (IsBarred (s.requests r) × (accepted ≡ false) × (s' ≡ s))
  unfolding submit
  submit_outcome f now r pri s = elim (Bool-cases (is_submittable (s.requests r))) [
    | inl ok ↦ inl (
      submittable-IsFree (s.requests r) ok,
      rw ok refl,
      rw ok (
          made-Submitted now r (prepare f now pri (s.requests r).request) s
            (prepared f now pri (s.requests r).request)),
    )
    | inr h ↦ inr (refused-IsBarred (s.requests r) h, rw h refl, rw h refl)
  ]

  -- A request that was submitted is refused, until its mark is taken away.
  pub submit_twice :
      (f : Defaults) (now later : ℕ) (r : Pointer) (pri again : ℤ) (s : Loop W T Q)
      → (submit f now r pri s).1 ≡ true
      → let s' = (submit f now r pri s).0 in submit f later r again s' ≡ (s', false)
  submit_twice f now later r pri again s h = elim (submit_outcome f now r pri s) [
    | inl (ok, accepted, done) ↦
        refused f later r again (submit f now r pri s).0
          (pending-refused ((submit f now r pri s).0.requests r) done.marked)
    | inr (out, accepted, same) ↦ cc (h, accepted)
  ]
