-- ===== src/RateManager/Tests.antt =====
-- The rate manager at concrete limits, in thousandths.
use a_curl_library.Base.{
  ℕ, ◌≡◌, refl, ◌⊎◌, true, false, Option, none, some, List, [], ◌∷◌, pos, arith,
}
use a_curl_library.External.Fixed.{fixed_double, fixed-IsIeee}
use a_curl_library.External.Slots.{slots, slots-IsTable}
use a_curl_library.RateManager.{
  RateLimit, Manager, refill, wait_ns, start_limit, can_proceed_limit, destroy,
}
use a_curl_library.RateManager.Buckets.{
  Started, Delayed, start_outcome, polls, polled_twice_blocks_normal,
}
use a_curl_library.RateManager.Calls.{
  Call, initialise, limits, starts, rejects, step, run, limit_of, Everywhere,
}
use a_curl_library.RateManager.Bounds.{IsBounded, run-IsBounded}
use a_curl_library.RateManager.Starvation.{IsStarved, slow_never_starts, run-IsStarved}
use a_curl_library.RateManager.Keys.{Freed, step-Spares, destroy_frees_all}

abbrev Limits : Type 0
Limits = List (Option (RateLimit ℕ))

-- Two requests a second, with a full bucket.
abbrev busy : RateLimit ℕ
busy = record {
  max_concurrent = pos 1;
  max_rps = 2000;
  current_requests = 0;
  high_priority_requests = 0;
  tokens = 2000;
  last_refill = 0;
  last_success = 0;
  backoff_seconds = 1;
}

-- One request in two seconds.
abbrev slow : RateLimit ℕ
slow = record busy { max_rps = 500; tokens = 500 }

-- An empty bucket of one request a second.
abbrev spent : RateLimit ℕ
spent = record busy { max_rps = 1000; tokens = 0 }

abbrev calls : List (Call ℕ ℕ)
calls = initialise ∷ limits 1 (pos 2) 500 0 0 ∷ starts 1 false 7 ∷ rejects 1 9_000_000_000 ∷ []

abbrev two_limits : Manager ℕ ℕ Limits
two_limits = record { limits = some busy ∷ none ∷ some slow ∷ [] }

-- A full bucket grants a start, an empty one answers the wait of a second.
start_busy : (start_limit 0 false busy).1 ≡ 0
unfolding start_limit
start_busy = refl

start_spent : (start_limit 0 false spent).1 ≡ 1_000_000_000
unfolding start_limit wait_ns
start_spent = refl

start_outcome_example :
    let (l', r) = start_limit 0 true busy in
    Started true (refill 0 busy) l' r ⊎ Delayed true (refill 0 busy) l' r
start_outcome_example = start_outcome 0 true busy

polled_twice_blocks_normal_example :
    let l' = (start_limit 1_000_000_000 true (polls (1 ∷ 2 ∷ []) spent)).0 in
    (start_limit 3_000_000_000 false l').0 ≡ refill 3_000_000_000 l'
unfolding polls can_proceed_limit
polled_twice_blocks_normal_example =
    polled_twice_blocks_normal (1 ∷ 2 ∷ []) 1_000_000_000 3_000_000_000 spent (refl, (refl, tt))
      (omega arith)

run-IsBounded_example : Everywhere {T = Limits} IsBounded (run none calls)
run-IsBounded_example =
    run-IsBounded fixed-IsIeee (slots-IsTable (RateLimit ℕ)) calls (tt, (refl, (tt, (tt, tt))))

slow_never_starts_example :
    (start_limit 9 false slow ≡ (refill 9 slow, wait_ns (refill 9 slow)))
    × ((can_proceed_limit 9 false slow).1 ≡ wait_ns (refill 9 slow))
slow_never_starts_example = slow_never_starts fixed-IsIeee 9 false slow refl

run-IsStarved_example : Everywhere {T = Limits} IsStarved (run none calls)
run-IsStarved_example =
    run-IsStarved fixed-IsIeee (slots-IsTable (RateLimit ℕ)) calls (tt, (refl, (tt, (tt, tt))))

step-Spares_example :
    limit_of 2 (step (some two_limits) (starts 0 false 1)) ≡ limit_of 2 (some two_limits)
step-Spares_example =
    step-Spares (slots-IsTable (RateLimit ℕ)) 2 (some two_limits) (starts 0 false 1) (omega arith)

destroy_frees_all_example :
    (ks : List ℕ) × (destroy (some two_limits) ≡ some (none, ks)) × Freed two_limits ks
destroy_frees_all_example = destroy_frees_all (slots-IsTable (RateLimit ℕ)) two_limits
