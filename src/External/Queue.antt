-- ===== src/External/Queue.antt =====
-- A multimap of the-macro-library whose nodes are requests, ordered by the time that a request had
-- when it was inserted: `macro_map_first`, `macro_map_erase` and the insertion that
-- `macro_multimap_insert` makes.
use a_curl_library.Base.{ℕ, ◌+◌, ◌<◌, ◌≤◌, ◌≡◌, ◌==◌, ltb, Option, none, some, if◌then◌else◌}
use a_curl_library.Request.{Pointer}

pub record Queue (Q : Type 0) : Type 0 where
  pub nothing : Q
  pub front : Q → Option Pointer
  pub insert : (key : ℕ) → Pointer → Q → Q
  pub remove : Pointer → Q → Q
  -- a sum over the nodes, by key and request: used in statements only
  pub sum : (ℕ → Pointer → ℕ) → Q → ℕ

abbrev pub is_request : Pointer → ℕ → Pointer → ℕ
is_request r k p = if p == r then 1 else 0

abbrev pub at_key : ℕ → Pointer → ℕ → Pointer → ℕ
at_key k r j p = if j == k then is_request r j p else 0

abbrev pub below_key : ℕ → ℕ → Pointer → ℕ
below_key k j p = if ltb j k then 1 else 0

-- How often a request stands in a map.
abbrev pub count : {Q : Type 0} ⦃q : Queue Q⦄ → Pointer → Q → ℕ
count ⦃q⦄ r m = q.sum (is_request r) m

-- Nothing is said of the removal of a request that is not in the map.
pub record IsQueue (Q : Type 0) ⦃q : Queue Q⦄ : Type 0 where
  pub sum-nothing : (w : ℕ → Pointer → ℕ) → q.sum w q.nothing ≡ 0
  pub sum-insert :
      (w : ℕ → Pointer → ℕ) (k : ℕ) (r : Pointer) (m : Q)
      → q.sum w (q.insert k r m) ≡ q.sum w m + w k r
  pub sum_mono :
      (v w : ℕ → Pointer → ℕ) (m : Q)
      → ((k : ℕ) (p : Pointer) → v k p ≤ w k p)
      → q.sum v m ≤ q.sum w m
  pub sum-remove :
      (r : Pointer) (m : Q)
      → 0 < count r m
      → (k : ℕ) × ((w : ℕ → Pointer → ℕ) → q.sum w (q.remove r m) + w k r ≡ q.sum w m)
  pub front-none : (m : Q) → q.front m ≡ none → (w : ℕ → Pointer → ℕ) → q.sum w m ≡ 0
  -- the front is in the map, and has a least key
  pub front-some :
      (m : Q) (r : Pointer)
      → q.front m ≡ some r
      → (k : ℕ) × (0 < q.sum (at_key k r) m) × (q.sum (below_key k) m ≡ 0)
