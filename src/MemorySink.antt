-- ===== src/MemorySink.antt =====
-- src/sinks/memory.c: the sink that collects a response in a buffer. A result `none` is a use of a
-- buffer that is NULL. The user's callback gets the bytes and whether the download succeeded.
pub mod Collects
mod Tests
use a_curl_library.Base.{
  ℕ, ◌+◌, zero, suc, Bool, true, false, Option, none, some, List, ℤ, pos, negsuc, is_some,
}
use a_curl_library.External.Buffer.{Buffer}

-- `memory_sink_s` without the callback and its argument
pub record Memory (B : Type 0) : Type 0 where
  pub buffer : Option B

-- a call of the user's callback
pub record Report : Type 0 where
  pub received : List ℕ
  pub success : Bool

-- `content_length + 1`, or 1024 where the length is not known
abbrev pub initial_size : ℤ → ℕ
initial_size (pos (suc n)) = suc n + 1
initial_size _ = 1024

module _ {B : Type 0} ⦃b : Buffer B⦄ where
  -- `memory_sink`
  abbrev pub memory_sink : Memory B
  memory_sink = record { buffer = none }

  -- `memory_init`: an old buffer is destroyed
  unfoldable pub memory_init : ℤ → Memory B → Memory B × Bool
  memory_init content_length mem =
      let buffer = b.create (initial_size content_length) in
      (record { buffer = buffer }, is_some buffer)

  unfoldable pub memory_write : List ℕ → Memory B → Option (Memory B)
  memory_write data_bytes mem = elim mem.buffer [
    | none ↦ none
    | some x ↦ some (record { buffer = some (b.append x data_bytes) })
  ]

  unfoldable pub memory_failure : Memory B → Option (Memory B × Report)
  memory_failure mem = elim mem.buffer [
    | none ↦ none
    | some x ↦ some (record { buffer = none }, record { received = b.bytes x; success = false })
  ]

  unfoldable pub memory_complete : Memory B → Option Report
  memory_complete mem = elim mem.buffer [
    | none ↦ none
    | some x ↦ some (record { received = b.bytes x; success = true })
  ]

  abbrev pub memory_destroy : Memory B → Memory B
  memory_destroy mem = record { buffer = none }
