-- ===== src/External/Slots.antt =====
-- The laws of `Table` can be met: keys are positions in a list of slots.
use a_curl_library.Base.{
  ℕ, zero, suc, ◌+◌, ◌≡◌, ◌≢◌, refl, Option, none, some, List, [], ◌∷◌, arith, ◌==◌, ==_iff,
  if◌then◌else◌,
}
use package.a_curl_library.External.Table.{Table, IsTable, weight}

abbrev shift : Option ℕ → Option ℕ
shift none = none
shift (some k) = some (suc k)

module _ {V : Type 0} where
  abbrev find : ℕ → List (Option V) → Option V
  find k [] = none
  find zero (x ∷ m) = x
  find (suc k) (x ∷ m) = find k m

  abbrev store : ℕ → V → List (Option V) → List (Option V)
  store zero v [] = some v ∷ []
  store (suc k) v [] = none ∷ store k v []
  store zero v (x ∷ m) = some v ∷ m
  store (suc k) v (x ∷ m) = x ∷ store k v m

  abbrev erase : ℕ → List (Option V) → List (Option V)
  erase k [] = []
  erase zero (x ∷ m) = none ∷ m
  erase (suc k) (x ∷ m) = x ∷ erase k m

  abbrev first : List (Option V) → Option ℕ
  first [] = none
  first (none ∷ m) = shift (first m)
  first (some v ∷ m) = some 0

  abbrev total : (V → ℕ) → List (Option V) → ℕ
  total w [] = 0
  total w (x ∷ m) = weight w x + total w m

  find-store :
      (j k : ℕ) (v : V) (m : List (Option V))
      → find j (store k v m) ≡ (if j == k then some v else find j m)
  find-store zero zero v [] = ground arith
  find-store (suc j) zero v [] = ground arith
  find-store zero (suc k) v [] = ground arith
  find-store (suc j) (suc k) v [] = ground (arith, find-store j k v [])
  find-store zero zero v (x ∷ m) = ground arith
  find-store (suc j) zero v (x ∷ m) = ground arith
  find-store zero (suc k) v (x ∷ m) = ground arith
  find-store (suc j) (suc k) v (x ∷ m) = ground (arith, find-store j k v m)

  find-erase :
      (j k : ℕ) (m : List (Option V)) → find j (erase k m) ≡ (if j == k then none else find j m)
  find-erase j k [] = ground arith
  find-erase zero zero (x ∷ m) = ground arith
  find-erase (suc j) zero (x ∷ m) = ground arith
  find-erase zero (suc k) (x ∷ m) = ground arith
  find-erase (suc j) (suc k) (x ∷ m) = ground (arith, find-erase j k m)

  first-none : (m : List (Option V)) → first m ≡ none → (k : ℕ) → find k m ≡ none
  first-none [] e k = refl
  first-none (none ∷ m) e zero = refl
  first-none (none ∷ m) e (suc k) = first-none m (ground arith) k
  first-none (some v ∷ m) e k = cc

  first-some : (m : List (Option V)) (k : ℕ) → first m ≡ some k → find k m ≢ none
  first-some [] k e = cc
  first-some (none ∷ m) zero e = ground arith
  first-some (none ∷ m) (suc k) e = first-some m k (ground arith)
  first-some (some v ∷ m) zero e = λ q. cc
  first-some (some v ∷ m) (suc k) e = ground arith

  total-first : (w : V → ℕ) (m : List (Option V)) → first m ≡ none → total w m ≡ 0
  total-first w [] e = refl
  total-first w (none ∷ m) e = omega (arith, total-first w m (ground arith))
  total-first w (some v ∷ m) e = cc

  total-store :
      (w : V → ℕ) (k : ℕ) (v : V) (m : List (Option V))
      → total w (store k v m) + weight w (find k m) ≡ total w m + w v
  total-store w zero v [] = omega arith
  total-store w (suc k) v [] = omega (arith, total-store w k v [])
  total-store w zero v (x ∷ m) = omega arith
  total-store w (suc k) v (x ∷ m) = omega (arith, total-store w k v m)

  total-erase :
      (w : V → ℕ) (k : ℕ) (m : List (Option V))
      → total w (erase k m) + weight w (find k m) ≡ total w m
  total-erase w k [] = omega arith
  total-erase w zero (x ∷ m) = omega arith
  total-erase w (suc k) (x ∷ m) = omega (arith, total-erase w k m)

instance abbrev pub slots : {V : Type 0} → Table ℕ V (List (Option V))
slots = record {
  same = ◌==◌;
  empty = [];
  find = find;
  store = store;
  erase = erase;
  first = first;
  total = total;
}

pub slots-IsTable : (V : Type 0) → IsTable ℕ V (List (Option V))
slots-IsTable V = record {
  same_iff = ==_iff;
  find-empty = λ k. refl;
  find-store = find-store;
  find-erase = find-erase;
  first-none = first-none;
  first-some = first-some;
  total-first = total-first;
  total-empty = λ w. refl;
  total-store = total-store;
  total-erase = total-erase;
}
