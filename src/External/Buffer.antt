-- ===== src/External/Buffer.antt =====
-- The growing buffer of a-memory-library: `aml_buffer_init`, which may fail, `aml_buffer_append` and
-- `aml_buffer_data` with `aml_buffer_length`.
use a_curl_library.Base.{ℕ, ◌≡◌, Option, some, List, [], ◌++◌}

pub record Buffer (B : Type 0) : Type 0 where
  pub create : ℕ → Option B
  pub append : B → List ℕ → B
  pub bytes : B → List ℕ

pub record IsBuffer (B : Type 0) ⦃b : Buffer B⦄ : Type 0 where
  pub bytes-create : (n : ℕ) (x : B) → b.create n ≡ some x → b.bytes x ≡ []
  pub bytes-append :
      (x : B) (data_bytes : List ℕ) → b.bytes (b.append x data_bytes) ≡ b.bytes x ++ data_bytes
