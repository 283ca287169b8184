-- ===== src/Resource/Waits.antt =====
-- Which dependency a request waits on.
use a_curl_library.Base.{
  ℕ, ◌≡◌, ◌≢◌, refl, ◌∙◌, Bool, true, false, Option, none, some, List, [], ◌∷◌, ◌++◌, arith,
  if◌then◌else◌, Bool-cases, Option-cases, inl, inr, subst,
}
use a_curl_library.External.Table.{Table, IsTable}
use a_curl_library.Request.{Pointer}
use a_curl_library.Loop.{Node, Loop}
use a_curl_library.Resource.Refs.{is_unmet, or_placeholder, node_of}
use a_curl_library.Resource.Blocking.{
  block_on_node, block_on_id, check_and_block_list, is_ready, all_ready_list,
}

module _ {W T Q : Type 0} ⦃t : Table ℕ Node T⦄ where
  -- The first id of a list that is not ready; an id with no node is not.
  unfoldable pub first_unmet : List ℕ → Loop W T Q → Option ℕ
  first_unmet [] s = none
  first_unmet (d ∷ ds) s = if is_ready (node_of d s) then first_unmet ds s else some d

  pub all_ready-first_unmet :
      (ds : List ℕ) (s : Loop W T Q) → first_unmet ds s ≡ none → all_ready_list ds s ≡ true
  unfolding first_unmet all_ready_list
  all_ready-first_unmet [] s e = refl
  all_ready-first_unmet (d ∷ ds) s e = ground (arith, all_ready-first_unmet ds s)

  -- Two states with the same nodes.
  abbrev pub SameNodes : Loop W T Q → Loop W T Q → Type 0
  SameNodes s s' = (j : ℕ) → node_of j s' ≡ node_of j s

  first_unmet-same :
      (ds : List ℕ) (s s' : Loop W T Q) → SameNodes s s' → first_unmet ds s' ≡ first_unmet ds s
  unfolding first_unmet
  first_unmet-same [] s s' same = refl
  first_unmet-same (d ∷ ds) s s' same = rw (same d, first_unmet-same ds s s' same)

  -- The request stands last among those that wait on `d`, and no other node has changed.
  pub record BlockedOn (r : Pointer) (d : ℕ) (s s' : Loop W T Q) : Type 0 where
    pub waiting :
        let n = or_placeholder (node_of d s) in
        node_of d s' ≡ some (record n { blocked = n.blocked ++ r ∷ [] })
    pub others : (j : ℕ) → j ≢ d → node_of j s' ≡ node_of j s

  -- What the check promises when the first unmet dependency is `o`.
  abbrev pub Checked : Pointer → Option ℕ → Loop W T Q → Loop W T Q × Bool → Type 0
  Checked r none s (s', b) = (b ≡ false) × SameNodes s s'
  Checked r (some d) s (s', b) = (b ≡ true) × BlockedOn r d s s'

  module _ (laws : IsTable ℕ Node T) where
    block-ready :
        (r : Pointer) (d : ℕ) (s : Loop W T Q)
        → is_ready (node_of d s) ≡ true
        → ((block_on_id r d s).1 ≡ false) × SameNodes s (block_on_id r d s).0
    unfolding block_on_id
    block-ready r d s e = elim (Option-cases (node_of d s)) [
      | inl x ↦ cc (x, e)
      | inr (n, x) ↦ (
        ground arith,
        λ j. ground (arith, laws.find-store j d n s.resources, (laws.same_iff j d).0),
      )
    ]

    block-unmet :
        (r : Pointer) (d : ℕ) (s : Loop W T Q)
        → is_ready (node_of d s) ≡ false
        → ((block_on_id r d s).1 ≡ true) × BlockedOn r d s (block_on_id r d s).0
    unfolding block_on_id
    block-unmet r d s e =
        let n' = block_on_node r (or_placeholder (node_of d s)) in
        let unmet : is_unmet (or_placeholder (node_of d s)) ≡ true = ground arith in
        (
          rw unmet,
          rw unmet (record {
            waiting = laws.find-store d d n' s.resources ∙ rw ((laws.same_iff d d).1 refl);
            others =
                λ j ne. ground (arith, laws.find-store j d n' s.resources, (laws.same_iff j d).0);
          }),
        )

    Checked-back :
        (r : Pointer) (o : Option ℕ) (s s₁ : Loop W T Q) (x : Loop W T Q × Bool)
        → SameNodes s s₁
        → Checked r o s₁ x
        → Checked r o s x
    Checked-back r none s s₁ x same (e, h) = (e, λ j. h j ∙ same j)
    Checked-back r (some d) s s₁ x same (e, h) = (
      e,
      record {
        waiting = ground (arith, h.waiting, same d);
        others = λ j ne. h.others j ne ∙ same j;
      },
    )

    -- `curl_resource_check_and_block_list` answers false exactly when every dependency is ready, and
    -- then no node has changed. Otherwise it makes the request wait, last, on the first dependency
    -- that is not ready, which gets a node if it has none; no other node changes.
    pub check_blocks_first_unmet :
        (r : Pointer) (ds : List ℕ) (s : Loop W T Q)
        → Checked r (first_unmet ds s) s (check_and_block_list r ds s)
    unfolding check_and_block_list first_unmet
    check_blocks_first_unmet r [] s = (refl, λ j. refl)
    check_blocks_first_unmet r (d ∷ ds) s = elim (Bool-cases (is_ready (node_of d s))) [
      | inl yes_ready ↦
          let (e, same) = block-ready r d s yes_ready in
          let s₁ = (block_on_id r d s).0 in
          let ih = check_blocks_first_unmet r ds s₁ in
          rw (yes_ready, e)
            (Checked-back r (first_unmet ds s) s s₁ (check_and_block_list r ds s₁) same (
              subst (λ o. Checked r o s₁ (check_and_block_list r ds s₁))
                (first_unmet-same ds s s₁ same) ih))
      | inr not_ready ↦
          let (e, blocked) = block-unmet r d s not_ready in rw (not_ready, e) (refl, blocked)
    ]
