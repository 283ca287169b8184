-- ===== src/External/Bag.antt =====
-- The laws of `Queue` can be met: lists of keys and requests, of which the front is a least entry.
use a_curl_library.Base.{
  ℕ, ◌+◌, ◌<◌, ◌≤◌, ◌≡◌, refl, Option, none, some, List, [], ◌∷◌, arith, ◌==◌, ltb, if◌then◌else◌,
  Bool-cases, Option-cases, inl, inr, ap, sym, subst, ◌∙◌,
}
use a_curl_library.Request.{Pointer}
use package.a_curl_library.External.Queue.{Queue, IsQueue, is_request, at_key, below_key}

abbrev Entry : Type 0
Entry = ℕ × Pointer

abbrev lesser : Entry → Option Entry → Entry
lesser e none = e
lesser (j, p) (some (k, r)) = if ltb k j then (k, r) else (j, p)

abbrev least : List Entry → Option Entry
least [] = none
least (e ∷ m) = some (lesser e (least m))

abbrev front : List Entry → Option Pointer
front m = elim (least m) [ none ↦ none | some (k, r) ↦ some r ]

abbrev remove : Pointer → List Entry → List Entry
remove r [] = []
remove r ((j, p) ∷ m) = let rest = remove r m in if p == r then m else (j, p) ∷ rest

abbrev sum : (ℕ → Pointer → ℕ) → List Entry → ℕ
sum w [] = 0
sum w ((j, p) ∷ m) = w j p + sum w m

sum-remove :
    (r : Pointer) (m : List Entry)
    → 0 < sum (is_request r) m
    → (k : ℕ) × ((w : ℕ → Pointer → ℕ) → sum w (remove r m) + w k r ≡ sum w m)
sum-remove r [] h = elim h [ ]
sum-remove r ((j, p) ∷ m) h = elim (Bool-cases (p == r)) [
  | inl e ↦ (j, λ w. ground (arith, e))
  | inr e ↦
      let (k, same) = sum-remove r m (ground (arith, e)) in (k, λ w. ground (arith, e, same w))
]

sum_mono :
    (v w : ℕ → Pointer → ℕ) (m : List Entry)
    → ((k : ℕ) (p : Pointer) → v k p ≤ w k p)
    → sum v m ≤ sum w m
sum_mono v w [] h = omega arith
sum_mono v w ((j, p) ∷ m) h = omega (arith, h j p, sum_mono v w m h)

sum-least-none : (w : ℕ → Pointer → ℕ) (m : List Entry) → least m ≡ none → sum w m ≡ 0
sum-least-none w [] e = refl
sum-least-none w (x ∷ m) e = cc

below_mono : (j k : ℕ) (m : List Entry) → j ≤ k → sum (below_key j) m ≤ sum (below_key k) m
below_mono j k [] h = omega arith
below_mono j k ((i, p) ∷ m) h = ground (arith, below_mono j k m h)

abbrev Least : List Entry → Entry → Type 0
Least m (k, r) = (0 < sum (at_key k r) m) × (sum (below_key k) m ≡ 0)

-- One more entry in front of a map with a least one.
Least-cons :
    (j : ℕ) (p : Pointer) (m : List Entry) (i : ℕ) (s : Pointer) (x : Entry)
    → Least m (i, s)
    → lesser (j, p) (some (i, s)) ≡ x
    → Least ((j, p) ∷ m) x
Least-cons j p m i s x (there, none_below) e = elim (Bool-cases (ltb i j)) [
  | inl less ↦
      subst (Least ((j, p) ∷ m)) (ap (λ b. if b then (i, s) else (j, p)) (sym less) ∙ e)
        (ground (arith, there, none_below, less))
  | inr more ↦
      subst (Least ((j, p) ∷ m)) (ap (λ b. if b then (i, s) else (j, p)) (sym more) ∙ e)
        (ground (arith, none_below, more, below_mono j i m))
]

least-lem :
    (m : List Entry) (k : ℕ) (r : Pointer)
    → least m ≡ some (k, r)
    → (0 < sum (at_key k r) m) × (sum (below_key k) m ≡ 0)
least-lem [] k r e = cc
least-lem ((j, p) ∷ m) k r e = elim (Option-cases (least m)) [
  | inl x ↦ ground (arith, e, x, sum-least-none (below_key k) m x)
  | inr ((i, s), x) ↦ Least-cons j p m i s (k, r) (least-lem m i s x) (ground (arith, e, x))
]

front-none : (m : List Entry) → front m ≡ none → (w : ℕ → Pointer → ℕ) → sum w m ≡ 0
front-none [] e w = refl
front-none ((j, p) ∷ m) e w = cc

front-some :
    (m : List Entry) (r : Pointer)
    → front m ≡ some r
    → (k : ℕ) × (0 < sum (at_key k r) m) × (sum (below_key k) m ≡ 0)
front-some m r e = elim (Option-cases (least m)) [
  | inl x ↦ cc (e, x)
  | inr ((i, s), x) ↦
      let same : s ≡ r = ground (arith, e, x) in
      let (there, low) = least-lem m i s x in (i, rw (← same) there, low)
]

instance abbrev pub bag : Queue (List (ℕ × Pointer))
bag = record {
  nothing = [];
  front = front;
  insert = λ k r m. (k, r) ∷ m;
  remove = remove;
  sum = sum;
}

pub bag-IsQueue : IsQueue (List (ℕ × Pointer))
bag-IsQueue = record {
  sum-nothing = λ w. refl;
  sum-insert = λ w k r m. omega arith;
  sum_mono = sum_mono;
  sum-remove = sum-remove;
  front-none = front-none;
  front-some = front-some;
}
