-- ===== src/MemorySink/Tests.antt =====
-- A memory sink whose buffers are lists.
use a_curl_library.Base.{ℕ, ◌≡◌, refl, true, false, none, some, List, [], ◌∷◌, ◌++◌, pos}
use a_curl_library.External.Buffer.{Buffer, IsBuffer}
use a_curl_library.MemorySink.{Memory, memory_sink, memory_init, memory_complete, memory_failure}
use a_curl_library.MemorySink.Collects.{write_all, memory_collects}

instance abbrev list_buffer : Buffer (List ℕ)
list_buffer = record { create = λ n. some []; append = λ x xs. x ++ xs; bytes = λ x. x }

list-IsBuffer : IsBuffer (List ℕ)
list-IsBuffer = record { bytes-create = λ n x e. cc e; bytes-append = λ x xs. refl }

memory_collects_example :
    (mem : Memory (List ℕ)) × (write_all
        ((1 ∷ 2 ∷ []) ∷ (3 ∷ []) ∷ [])
        (memory_init (pos 3) memory_sink).0
      ≡ some mem)
    × (memory_complete mem ≡ some (record { received = 1 ∷ 2 ∷ 3 ∷ []; success = true }))
    × (memory_failure mem
        ≡ some (record { buffer = none }, record { received = 1 ∷ 2 ∷ 3 ∷ []; success = false }))
memory_collects_example =
    memory_collects list-IsBuffer (pos 3) memory_sink [] ((1 ∷ 2 ∷ []) ∷ (3 ∷ []) ∷ []) refl
