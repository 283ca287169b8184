-- ===== src/EventLoop/Retaining.antt =====
-- The references that the dependencies of a request take.
use a_curl_library.Base.{
  ℕ, ◌+◌, ◌≡◌, ap, ◌∙◌, sym, true, false, ◌==◌, List, [], ◌∷◌, ℤ, pos, negsuc, ◌+ℤ◌, arith,
  if◌then◌else◌, Bool-cases, inl, inr, ==_iff,
}
use a_curl_library.External.Table.{Table, IsTable}
use a_curl_library.Request.{Pointer}
use a_curl_library.Loop.{Node, Loop}
use a_curl_library.Resource.Refs.{
  is_empty, or_placeholder, node_of, update_or_create, retain_request_deps,
}

-- how often a request stands in a list
abbrev pub occurs : Pointer → List Pointer → ℕ
occurs p [] = 0
occurs p (r ∷ rs) = (if r == p then 1 else 0) + occurs p rs

add_pos : (x : ℤ) (a b : ℕ) → (x +ℤ pos a) +ℤ pos b ≡ x +ℤ pos (a + b)
add_pos (pos n) a b = ground arith
add_pos (negsuc n) a b = ground arith

pub add_none : (x : ℤ) → x +ℤ pos 0 ≡ x
add_none (pos n) = ground arith
add_none (negsuc n) = ground arith

module _ {W T Q : Type 0} ⦃t : Table ℕ Node T⦄ where
  -- the references of a resource; 0 where it has no node
  abbrev pub references : ℕ → Loop W T Q → ℤ
  references id s = (or_placeholder (node_of id s)).refcnt

  -- Each resource has as many references more as the request names it, and the request is marked if it
  -- has dependencies.
  pub record Retained (r : Pointer) (deps : List ℕ) (l l' : Loop W T Q) : Type 0 where
    pub counted : (id : ℕ) → references id l' ≡ references id l +ℤ pos (occurs id deps)
    pub marked : is_empty deps ≡ false → (l'.requests r).deps_retained ≡ true

  module _ (laws : IsTable ℕ Node T) where
    references-one :
        (d id : ℕ) (s : Loop W T Q)
        → references id (update_or_create d (λ n. record n { refcnt = n.refcnt +ℤ pos 1 }) s)
          ≡ references id s +ℤ pos (if d == id then 1 else 0)
    references-one d id s =
        let n = or_placeholder (node_of d s) in
        let n' : Node = record n { refcnt = n.refcnt +ℤ pos 1 } in
        ap (λ o. (or_placeholder o).refcnt) (laws.find-store id d n' s.resources)
        ∙ elim (Bool-cases (d == id)) [
          | inl e ↦
              let same = (==_iff d id).0 e in
              rw ((laws.same_iff id d).1 (sym same), e) (ap (λ k. references k s +ℤ pos 1) same)
          | inr e ↦ elim (Bool-cases (t.same id d)) [
            | inl x ↦ cc ((==_iff d id).1 (sym ((laws.same_iff id d).0 x)), e)
            | inr x ↦ rw (x, e) (sym (add_none (references id s)))
          ]
        ]

    pub references-retain :
        (ds : List ℕ) (s : Loop W T Q) (id : ℕ)
        → references id (retain_request_deps ds s) ≡ references id s +ℤ pos (occurs id ds)
    unfolding retain_request_deps
    references-retain [] s id = sym (add_none (references id s))
    references-retain (d ∷ ds) s id =
        let s₁ = update_or_create d (λ n. record n { refcnt = n.refcnt +ℤ pos 1 }) s in
        references-retain ds s₁ id
        ∙ ap (λ x. x +ℤ pos (occurs id ds)) (references-one d id s)
        ∙ add_pos (references id s) (if d == id then 1 else 0) (occurs id ds)
