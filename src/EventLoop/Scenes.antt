-- ===== src/EventLoop/Scenes.antt =====
-- Parts of the loops that the tests are about.
use a_curl_library.Base.{
  ℕ, ◌+◌, ◌*◌, refl, Bool, true, false, ◌&&◌, ◌==◌, if◌then◌else◌, Option, none, some, List, [],
  ◌∷◌, pos, negsuc,
}
use a_curl_library.External.Fixed.{fixed_double}
use a_curl_library.External.Slots.{slots}
use a_curl_library.External.Bag.{bag}
use a_curl_library.External.Table.{Table}
use a_curl_library.RateManager.{RateLimit}
use a_curl_library.Request.{Text, Pointer, Wrapper}
use a_curl_library.Request.Config.{Defaults}
use a_curl_library.Request.Build.{request_init}
use a_curl_library.Loop.{Node, Loop}
use a_curl_library.EventLoop.{Sys, User}
use a_curl_library.EventLoop.Shutdown.{loop_init}
use a_curl_library.EventLoop.Outcome.{KeepsPool}
use a_curl_library.EventLoop.Settling.{KeepsRetry}

abbrev pub same_key : Text → Text → Bool
same_key [] [] = true
same_key (a ∷ as₁) (b ∷ bs) = (a == b) && same_key as₁ bs
same_key _ _ = false

abbrev pub Limits : Type 0
Limits = List (Text × RateLimit ℕ)

abbrev pub find_limit : Text → Limits → Option (RateLimit ℕ)
find_limit key [] = none
find_limit key ((k, l) ∷ m) = if same_key k key then some l else find_limit key m

abbrev pub erase_limit : Text → Limits → Limits
erase_limit key [] = []
erase_limit key ((k, l) ∷ m) =
    let rest = erase_limit key m in if same_key k key then m else (k, l) ∷ rest

abbrev pub first_limit : Limits → Option Text
first_limit [] = none
first_limit ((k, l) ∷ m) = some k

abbrev pub total_limits : (RateLimit ℕ → ℕ) → Limits → ℕ
total_limits w [] = 0
total_limits w ((k, l) ∷ m) = w l + total_limits w m

instance abbrev pub keyed : Table Text (RateLimit ℕ) Limits
keyed = record {
  same = same_key;
  empty = [];
  find = find_limit;
  store = λ key l m. (key, l) ∷ erase_limit key m;
  erase = erase_limit;
  first = first_limit;
  total = total_limits;
}

abbrev pub NodesOf : Type 0
NodesOf = List (Option Node)

abbrev pub Heap : Type 0
Heap = List (ℕ × Pointer)

abbrev pub State : Type 0
State = Sys ℕ NodesOf Heap Limits

abbrev pub callbacks : Defaults
callbacks = record {
  on_write = 91;
  on_complete = 92;
  on_failure = 93;
  sink_destroy = 94;
  calculate_retry = 95;
}

unfoldable pub fresh : Wrapper ℕ
unfolding request_init
fresh = request_init callbacks

-- A request that may be retried, and whose time is 7.
abbrev pub plain : Wrapper ℕ
plain = record fresh { request = record fresh.request { on_retry = some 95; next_retry_at = 7 } }

abbrev pub user : User ℕ
user = record {
  prepare = λ cb req. (req, true);
  complete = λ cb req. (req, pos 0);
  failure = λ cb code req. (req, negsuc 0);
  retry = λ cb req. (req, true);
  stringify = λ p. none;
  add_seconds = λ now seconds. now + seconds * 1_000_000_000;
}

pub user-KeepsPool : KeepsPool user
user-KeepsPool = record {
  prepared = λ cb req. refl;
  completed = λ cb req. refl;
  failed = λ cb code req. refl;
  retried = λ cb req. refl;
}

pub user-KeepsRetry : KeepsRetry user
user-KeepsRetry = record { completed = λ cb req. refl; failed = λ cb code req. refl }

unfoldable pub empty_loop : Loop ℕ NodesOf Heap
unfolding loop_init
empty_loop = loop_init (λ p. plain) 1

abbrev pub with_loop : Loop ℕ NodesOf Heap → State
with_loop l = record { loop = l; manager = none; clock = λ n. 100; handles = λ n. some (60 + n) }
