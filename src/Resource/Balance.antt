-- ===== src/Resource/Balance.antt =====
-- Each payload is cleaned exactly once: what a table holds and what has been cleaned add up.
use a_curl_library.Base.{
  ℕ, ◌+◌, ◌≡◌, refl, ◌∙◌, ◌&&◌, Option, none, some, List, [], ◌∷◌, pos, ◌-ℤ◌, ◌+ℤ◌, ltb_ℤ, arith,
  ◌==◌, if◌then◌else◌, Bool-cases, Option-cases, inl, inr,
}
use a_curl_library.External.Table.{Table, IsTable, weight}
use a_curl_library.Request.{Pointer}
use a_curl_library.Loop.{Node, Loop, Event, cleaned}
use a_curl_library.Resource.Refs
use a_curl_library.Resource.Refs.{
  is_int, is_empty, placeholder, or_placeholder, node_of, write_node, update_or_create, run_cleanup,
  drop_ref, maybe_autorelease_owner, release_dep, release_request_deps, retain_request_deps,
}
use a_curl_library.Resource.Lifecycle.{
  request_cleanup, request_destroy, free_parts, free_pool, let_go,
}

-- One for the payload `p` with the cleanup `f`.
abbrev pub is_pair : Pointer → Pointer → Option Pointer → Option Pointer → ℕ
is_pair f p (some g) (some q) = if (g == f) && (q == p) then 1 else 0
is_pair f p _ _ = 0

-- How often a log has `f(p)` called.
abbrev pub cleans : Pointer → Pointer → List Event → ℕ
cleans f p [] = 0
cleans f p (cleaned g q ∷ es) = is_pair f p (some g) (some q) + cleans f p es
cleans f p (_ ∷ es) = cleans f p es

abbrev pub owns : Pointer → Pointer → Node → ℕ
owns f p n = is_pair f p n.cleanup n.payload

module _ {W T Q : Type 0} ⦃t : Table ℕ Node T⦄ where
  -- What is held and what was cleaned.
  unfoldable pub balance : Pointer → Pointer → Loop W T Q → ℕ
  balance f p s = t.total (owns f p) s.resources + cleans f p s.log

  module _ (laws : IsTable ℕ Node T) (f p : Pointer) where
    pub balance-write :
        (id : ℕ) (n : Node) (s : Loop W T Q)
        → balance f p (write_node id n s) + weight (owns f p) (node_of id s)
          ≡ balance f p s + owns f p n
    unfolding balance
    balance-write id n s = omega (arith, laws.total-store (owns f p) id n s.resources)

    pub balance-run_cleanup :
        (c q : Option Pointer) (s : Loop W T Q)
        → balance f p (run_cleanup c q s) ≡ balance f p s + is_pair f p c q
    unfolding balance
    balance-run_cleanup none q s = ground arith
    balance-run_cleanup (some g) none s = ground arith
    balance-run_cleanup (some g) (some q) s = ground arith

    -- A node that owns what the old one did.
    pub balance-rewrite :
        (id : ℕ) (n n' : Node) (s : Loop W T Q)
        → node_of id s ≡ some n
        → owns f p n' ≡ owns f p n
        → balance f p (write_node id n' s) ≡ balance f p s
    balance-rewrite id n n' s e same = ground (arith, balance-write id n' s)

    pub balance-erase :
        (id : ℕ) (n : Node) (s : Loop W T Q)
        → node_of id s ≡ some n
        → balance f p (record s { resources = t.erase id s.resources }) + owns f p n ≡ balance f p s
    unfolding balance
    balance-erase id n s e = ground (arith, laws.total-erase (owns f p) id s.resources)

    -- An update that leaves payload and cleanup alone, on a node or a new placeholder.
    pub balance-update :
        (id : ℕ) (g : Node → Node) (s : Loop W T Q)
        → ((n : Node) → owns f p (g n) ≡ owns f p n)
        → balance f p (update_or_create id g s) ≡ balance f p s
    balance-update id g s same = elim (Option-cases (node_of id s)) [
      | inl e ↦ ground (arith, same placeholder, balance-write id (g placeholder) s)
      | inr (n, e) ↦ ground (arith, same n, balance-write id (g n) s)
    ]

    balance-drop_ref :
        (id : ℕ) (n : Node) (s : Loop W T Q)
        → node_of id s ≡ some n
        → balance f p (drop_ref id n s) ≡ balance f p s
    unfolding drop_ref
    balance-drop_ref id n s e = elim (Bool-cases (is_int 0 (n.refcnt -ℤ pos 1))) [
      | inl z ↦ rw z (
          omega (
            arith,
            balance-run_cleanup n.cleanup n.payload
                (record s { resources = t.erase id s.resources }),
            balance-erase id n s e,
          ))
      | inr z ↦ rw z (balance-rewrite id n (record n { refcnt = n.refcnt -ℤ pos 1 }) s e refl)
    ]

    pub balance-release :
        (id : ℕ) (s : Loop W T Q) → balance f p (Refs.release id s) ≡ balance f p s
    unfolding Refs.release
    balance-release id s = elim (Option-cases (node_of id s)) [
      | inl e ↦ rw (e, Refs.release)
      | inr (n, e) ↦ rw (e, Refs.release) (balance-drop_ref id n s e)
    ]

    balance-release_dep : (d : ℕ) (s : Loop W T Q) → balance f p (release_dep d s) ≡ balance f p s
    unfolding release_dep
    balance-release_dep d s = elim (Option-cases (node_of d s)) [
      | inl e ↦ rw (e, release_dep)
      | inr (n, e) ↦
          let n' : Node = record n {
            refcnt = if ltb_ℤ (pos 0) n.refcnt then n.refcnt -ℤ pos 1 else n.refcnt;
          } in
          let kept = balance-rewrite d n n' s e refl in
          rw (e, release_dep)
            (elim (Bool-cases
              (n.auto_release_owner && (is_int 1 n'.refcnt && is_empty n.blocked))) [
                | inl z ↦ rw z (balance-release d (write_node d n' s) ∙ kept)
                | inr z ↦ rw z kept
              ])
    ]

    balance-release_request_deps :
        (ds : List ℕ) (s : Loop W T Q) → balance f p (release_request_deps ds s) ≡ balance f p s
    unfolding release_request_deps
    balance-release_request_deps [] s = refl
    balance-release_request_deps (d ∷ ds) s =
        balance-release_request_deps ds (release_dep d s) ∙ balance-release_dep d s

    pub balance-retain :
        (ds : List ℕ) (s : Loop W T Q) → balance f p (retain_request_deps ds s) ≡ balance f p s
    unfolding retain_request_deps
    balance-retain [] s = refl
    balance-retain (d ∷ ds) s =
        let g : Node → Node = λ n. record n { refcnt = n.refcnt +ℤ pos 1 } in
        balance-retain ds (update_or_create d g s) ∙ balance-update d g s (λ n. refl)

    balance-request_cleanup :
        (r : Pointer) (s : Loop W T Q) → balance f p (request_cleanup r s) ≡ balance f p s
    unfolding balance request_cleanup
    balance-request_cleanup r s = ground arith

    balance-let_go : (r : Pointer) (s : Loop W T Q) → balance f p (let_go r s) ≡ balance f p s
    unfolding let_go
    balance-let_go r s = elim (Bool-cases (s.requests r).deps_retained) [
      | inl e ↦ rw e (unfold balance in balance-release_request_deps (s.requests r).deps s)
      | inr e ↦ rw e
    ]

    balance-free_parts :
        (r : Pointer) (s : Loop W T Q) → balance f p (free_parts r s) ≡ balance f p s
    unfolding balance free_parts
    balance-free_parts r s = ground arith

    balance-free_pool : (r : Pointer) (s : Loop W T Q) → balance f p (free_pool r s) ≡ balance f p s
    unfolding balance free_pool
    balance-free_pool r s = ground arith

    -- The end of a request cleans no payload behind the table's back.
    pub balance-request_destroy :
        (r : Pointer) (s : Loop W T Q) → balance f p (request_destroy r s) ≡ balance f p s
    unfolding request_destroy
    balance-request_destroy r s =
        balance-free_pool r (free_parts r (let_go r (request_cleanup r s)))
        ∙ (balance-free_parts r (let_go r (request_cleanup r s))
            ∙ (balance-let_go r (request_cleanup r s) ∙ balance-request_cleanup r s))
