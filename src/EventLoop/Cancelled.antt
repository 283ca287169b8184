-- ===== src/EventLoop/Cancelled.antt =====
-- Cancelled requests that stand in the maps which their flags name.
use a_curl_library.Base.{
  ℕ, ◌≤◌, ◌<◌, ◌≡◌, refl, ap, ◌∙◌, sym, subst, true, false, ◌==◌, Option, List, [], ◌∷◌, arith,
  if◌then◌else◌, Bool-cases, inl, inr,
}
use a_curl_library.External.Double.{Double}
use a_curl_library.External.Table.{Table}
use a_curl_library.External.Queue.{Queue, IsQueue, count}
use a_curl_library.RateManager.{RateLimit}
use a_curl_library.Request.{Text, Pointer, Wrapper}
use a_curl_library.Loop.{Node, Loop}
use a_curl_library.Resource.Teardown.{done}
use a_curl_library.EventLoop.{Sys, User, wrapper}
use a_curl_library.EventLoop.Pending.{unlink_cancelled, process_cancelled}
use a_curl_library.EventLoop.Frame.{IsEnd-request_destroy}
use a_curl_library.EventLoop.Outcome.{KeepsPool}
use a_curl_library.EventLoop.Moves.{Once, IsKept, IsKept-trans, IsKept-refl}
use a_curl_library.EventLoop.Put.{destroyed}
use a_curl_library.EventLoop.Retaining.{occurs}
use a_curl_library.EventLoop.Cancelling.{
  Linked, Linked-same, rounds_of, end_one, wrappers-unlink_cancelled, links-end_one,
}
use a_curl_library.EventLoop.Cuts.{IsCut, IsKept-IsCut, IsCut-queued, IsCut-inactive, IsCut-refresh}

module _ {W T Q : Type 0} ⦃q : Queue Q⦄ where
  -- the map that a cancelled request is looked for in
  abbrev pub map_of : Wrapper W → Loop W T Q → Q
  map_of w l =
      if w.multi_handle
      then l.queued_requests
      else (if w.should_refresh then l.refresh_requests else l.inactive_requests)

  abbrev pub Filed : Pointer → Loop W T Q → Type 0
  Filed r l = 0 < count r (map_of (l.requests r) l)

  count-map_of :
      (p : Pointer) (w : Wrapper W) (l l' : Loop W T Q)
      → count p l'.queued_requests ≡ count p l.queued_requests
      → count p l'.inactive_requests ≡ count p l.inactive_requests
      → count p l'.refresh_requests ≡ count p l.refresh_requests
      → count p (map_of w l') ≡ count p (map_of w l)
  count-map_of p w l l' a b c = elim (Bool-cases w.multi_handle) [
    | inl e ↦ rw e a
    | inr e ↦ elim (Bool-cases w.should_refresh) [ inl x ↦ rw (e, x) c | inr x ↦ rw (e, x) b ]
  ]

module _ {W T Q M : Type 0} ⦃d : Double W⦄ ⦃t : Table ℕ Node T⦄ ⦃m : Table Text (RateLimit W) M⦄
    ⦃q : Queue Q⦄ (laws : IsQueue Q) (u : User W) where
  IsCut-unlink_cancelled :
      (r : Pointer) (s : Sys W T Q M)
      → Filed r s.loop
      → IsCut r s.loop (unlink_cancelled u r s).loop
  unfolding unlink_cancelled
  IsCut-unlink_cancelled r s here = elim (Bool-cases (wrapper r s).multi_handle) [
    | inl e ↦ rw (unlink_cancelled, e) (IsCut-queued laws r s.loop (rw e at here))
    | inr e ↦ elim (Bool-cases (wrapper r s).should_refresh) [
      | inl x ↦ rw (unlink_cancelled, e, x) (IsCut-refresh laws r s.loop (rw (e, x) at here))
      | inr x ↦ rw (unlink_cancelled, e, x) (IsCut-inactive laws r s.loop (rw (e, x) at here))
    ]
  ]

  IsKept-end_one :
      (r : Pointer) (s : Sys W T Q M) → Filed r s.loop → IsKept u s.loop (end_one u r s).loop
  IsKept-end_one r s here =
      let l₁ = (unlink_cancelled u r s).loop in
      let end = IsEnd-request_destroy r l₁ in
      IsKept-IsCut laws u r s.loop l₁ (end_one u r s).loop (IsCut-unlink_cancelled r s here)
        (destroyed end.maps (λ k. end.pools))

  -- another request that is cancelled stays where it is
  Filed-end_one :
      (r p : Pointer) (s : Sys W T Q M)
      → Filed r s.loop
      → (r == p) ≡ false
      → Filed p s.loop
      → Filed p (end_one u r s).loop
  Filed-end_one r p s here ne there =
      let l₁ = (unlink_cancelled u r s).loop in
      let cut = IsCut-unlink_cancelled r s here in
      let end = IsEnd-request_destroy r l₁ in
      let same : (wrapper p (end_one u r s)) ≡ wrapper p s =
        end.others p (ground (arith, ne)) ∙ ap (λ w. w p) (wrappers-unlink_cancelled u r s) in
      let l' = (end_one u r s).loop in
      let maps = end.maps in
      let still =
        count-map_of p (wrapper p s) s.loop l' (ap (λ m. count p m.queued) maps ∙ cut.queued p ne)
          (ap (λ m. count p m.inactive) maps ∙ cut.inactive p ne)
          (ap (λ m. count p m.refresh) maps ∙ cut.refresh p ne) in
      subst (λ w. 0 < count p (map_of w l')) (sym same) (omega (arith, still, there))

  -- Where each cancelled request stands once on the list and in the map that its flags name, and the
  -- maps are in order, all of them are taken out and destroyed: the counters stay the sizes of their
  -- maps, and every request stands in as many maps, with one for its end, as before.
  pub process_cancelled-keeps :
      (rs : List Pointer) (next : Option Pointer) (s : Sys W T Q M)
      → KeepsPool u
      → Linked s.loop.requests next rs
      → ((p : Pointer) → occurs p rs ≤ 1)
      → ((p : Pointer) → 0 < occurs p rs → Filed p s.loop)
      → Once s.loop
      → (s' : Sys W T Q M) × (process_cancelled u (rounds_of rs) next s ≡ done s')
        × IsKept u s.loop s'.loop
  unfolding process_cancelled
  process_cancelled-keeps [] next s kept e single filed once =
      (s, rw (process_cancelled, e) refl, IsKept-refl u s.loop)
  process_cancelled-keeps (r ∷ rs) next s kept (e, h) single filed once =
      let s₁ = end_one u r s in
      let here = filed r (ground arith) in
      let step = IsKept-end_one r s here in
      let cut = IsCut-unlink_cancelled r s here in
      let alive : (wrapper r s).pool ≡ true =
        ground
          (arith, cut.balance r, once r, ap (λ w. (w r).pool) (wrappers-unlink_cancelled u r s)) in
      let ne : (p : Pointer) → 0 < occurs p rs → (r == p) ≡ false =
        λ p x. ground (arith, single p, x) in
      let (s', same, rest) =
        process_cancelled-keeps rs (wrapper r s).next_cancelled s₁ kept
          (Linked-same s.loop.requests s₁.loop.requests _ _ rs (λ p. links-end_one u r p s) refl h)
          (λ p. omega (arith, single p))
          (λ p x. Filed-end_one r p s here (ne p x) (filed p (omega (arith, x))))
          (λ p. omega (arith, step.conserved kept once p, once p)) in
      (s', rw (process_cancelled, e, alive) same, IsKept-trans u s.loop s₁.loop s'.loop step rest)
