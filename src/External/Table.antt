-- ===== src/External/Table.antt =====
-- A map of the-macro-library whose nodes have distinct keys: `macro_map_find_kv`,
-- `macro_map_insert`, `macro_map_erase` and `macro_map_first`. A node is found by its key and then
-- written through the pointer, so `store` stands for the insertion of a node and for the writes to
-- a node of the map alike.
use a_curl_library.Base.{ℕ, ◌+◌, ◌≡◌, ◌≢◌, ◌↔◌, Bool, true, Option, none, some, if◌then◌else◌}

pub record Table (K V T : Type 0) : Type 0 where
  pub same : K → K → Bool
  pub empty : T
  pub find : K → T → Option V
  pub store : K → V → T → T
  pub erase : K → T → T
  pub first : T → Option K
  -- the number of nodes, and any other sum over them: used in statements only
  pub total : (V → ℕ) → T → ℕ

abbrev pub weight : {V : Type 0} → (V → ℕ) → Option V → ℕ
weight w none = 0
weight w (some v) = w v

pub record IsTable (K V T : Type 0) ⦃t : Table K V T⦄ : Type 0 where
  pub same_iff : (j k : K) → (t.same j k ≡ true) ↔ (j ≡ k)
  pub find-empty : (k : K) → t.find k t.empty ≡ none
  pub find-store :
      (j k : K) (v : V) (m : T)
      → t.find j (t.store k v m) ≡ (if t.same j k then some v else t.find j m)
  pub find-erase :
      (j k : K) (m : T) → t.find j (t.erase k m) ≡ (if t.same j k then none else t.find j m)
  pub first-none : (m : T) → t.first m ≡ none → (k : K) → t.find k m ≡ none
  pub first-some : (m : T) (k : K) → t.first m ≡ some k → t.find k m ≢ none
  pub total-first : (w : V → ℕ) (m : T) → t.first m ≡ none → t.total w m ≡ 0
  pub total-empty : (w : V → ℕ) → t.total w t.empty ≡ 0
  pub total-store :
      (w : V → ℕ) (k : K) (v : V) (m : T)
      → t.total w (t.store k v m) + weight w (t.find k m) ≡ t.total w m + w v
  pub total-erase :
      (w : V → ℕ) (k : K) (m : T) → t.total w (t.erase k m) + weight w (t.find k m) ≡ t.total w m
