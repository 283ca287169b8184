-- ===== src/MemorySink/Collects.antt =====
-- What the memory sink hands to the user.
use mathlib.Core.List.{append_assoc, append-nil}
use a_curl_library.Base.{
  ℕ, ◌≡◌, refl, sym, ap, ◌∙◌, true, false, Option, none, some, List, [], ◌∷◌, ◌++◌, ℤ,
}
use a_curl_library.External.Buffer.{Buffer, IsBuffer}
use a_curl_library.MemorySink.{
  Memory, initial_size, memory_init, memory_write, memory_failure, memory_complete,
}

abbrev pub joined : List (List ℕ) → List ℕ
joined [] = []
joined (c ∷ cs) = c ++ joined cs

module _ {B : Type 0} ⦃b : Buffer B⦄ where
  unfoldable pub write_all : List (List ℕ) → Memory B → Option (Memory B)
  write_all [] mem = some mem
  write_all (c ∷ cs) mem = elim (memory_write c mem) [ none ↦ none | some mem' ↦ write_all cs mem' ]

  module _ (laws : IsBuffer B) where
    write_all-bytes :
        (cs : List (List ℕ)) (x : B)
        → (y : B) × (write_all cs (record { buffer = some x }) ≡ some (record { buffer = some y }))
          × (b.bytes y ≡ b.bytes x ++ joined cs)
    unfolding write_all memory_write
    write_all-bytes [] x = (x, refl, sym (append-nil (b.bytes x)))
    write_all-bytes (c ∷ cs) x =
        let (y, e, same) = write_all-bytes cs (b.append x c) in
        (
          y,
          e,
          same
              ∙ ap (λ xs. xs ++ joined cs) (laws.bytes-append x c)
              ∙ append_assoc (b.bytes x) c (joined cs),
        )

    -- After an initialisation that got its buffer, and any writes: none of them meets a missing buffer,
    -- and a completion hands all the bytes that were written, in their order, to the user as a success;
    -- a failure hands them over as a failure and gives up the buffer.
    pub memory_collects :
        (n : ℤ) (old : Memory B) (x : B) (cs : List (List ℕ))
        → b.create (initial_size n) ≡ some x
        → (mem : Memory B) × (write_all cs (memory_init n old).0 ≡ some mem)
          × (memory_complete mem ≡ some (record { received = joined cs; success = true }))
          × (memory_failure mem
              ≡ some (record { buffer = none }, record { received = joined cs; success = false }))
    unfolding memory_init memory_complete memory_failure
    memory_collects n old x cs made =
        let (y, e, same) = write_all-bytes cs x in
        let all = same ∙ ap (λ xs. xs ++ joined cs) (laws.bytes-create (initial_size n) x made) in
        (
          record { buffer = some y },
          ap (λ o. write_all cs (record { buffer = o })) made ∙ e,
          ap (λ xs. some (record { received = xs; success = true })) all,
          ap (λ xs. some (record { buffer = none }, record { received = xs; success = false })) all,
        )
