-- ===== src/EventLoop/Shutdown.antt =====
-- `curl_event_loop_init` and `curl_event_loop_destroy`. A result `fault` is a read of a request that
-- has been destroyed.
use a_curl_library.Base.{
  ℕ, zero, suc, ◌+◌, true, Option, none, some, List, [], ◌∷◌, pos, if◌then◌else◌,
}
use a_curl_library.External.Table.{Table}
use a_curl_library.External.Queue.{Queue}
use a_curl_library.Request.{Pointer, Wrapper}
use a_curl_library.Loop.{Node, Loop}
use a_curl_library.Resource.Lifecycle.{request_destroy}
use a_curl_library.Resource.Teardown.{Torn, done, fault, out_of_fuel, destroy_all}

infixl 5 ◌>>=◌
abbrev pub ◌>>=◌ : {A B : Type 0} → Torn A → (A → Torn B) → Torn B
done a >>= f = f a
fault >>= f = fault
out_of_fuel >>= f = out_of_fuel

-- the four maps of requests
pub data Which : Type 0 where
  of_queued of_inactive of_refresh of_limited : Which

module _ {W T Q : Type 0} where
  abbrev pub root_of : Which → Loop W T Q → Q
  root_of of_queued l = l.queued_requests
  root_of of_inactive l = l.inactive_requests
  root_of of_refresh l = l.refresh_requests
  root_of of_limited l = l.rate_limited_requests

  abbrev pub set_root : Which → Q → Loop W T Q → Loop W T Q
  set_root of_queued root l = record l { queued_requests = root }
  set_root of_inactive root l = record l { inactive_requests = root }
  set_root of_refresh root l = record l { refresh_requests = root }
  set_root of_limited root l = record l { rate_limited_requests = root }

module _ {W T Q : Type 0} ⦃t : Table ℕ Node T⦄ ⦃q : Queue Q⦄ where
  -- `curl_event_loop_init`, where libcurl gives its handles; the wrappers are those of the memory
  unfoldable pub loop_init : (memory : Pointer → Wrapper W) (next_id : ℕ) → Loop W T Q
  loop_init memory next_id = record {
    requests = memory;
    enable_http3 = true;
    max_concurrent_requests = 1000;
    keep_running = true;
    queued_requests = q.nothing;
    inactive_requests = q.nothing;
    refresh_requests = q.nothing;
    rate_limited_requests = q.nothing;
    resources = t.empty;
    res_inbox = [];
    num_queued_requests = pos 0;
    num_multi_requests = pos 0;
    num_inactive_requests = pos 0;
    num_refresh_requests = pos 0;
    metrics = record {
      total_requests = 0;
      completed_requests = 0;
      failed_requests = 0;
      retried_requests = 0;
    };
    cancelled_requests = none;
    pending_requests = [];
    injected_requests = [];
    next_id = next_id;
    log = [];
  }

  -- `curl_event_request_destroy`, where the caller has just read the request
  abbrev pub destroy_live : Pointer → Loop W T Q → Torn (Loop W T Q)
  destroy_live r l = if (l.requests r).pool then done (request_destroy r l) else fault

  -- the loop over one map
  unfoldable pub destroy_map : ℕ → Which → Loop W T Q → Torn (Loop W T Q)
  destroy_map zero k l = out_of_fuel
  destroy_map (suc fuel) k l = elim (q.front (root_of k l)) [
    | none ↦ done l
    | some r ↦ elim (destroy_live r (set_root k (q.remove r (root_of k l)) l)) [
      | done l' ↦ destroy_map fuel k l'
      | fault ↦ fault
      | out_of_fuel ↦ out_of_fuel
    ]
  ]

  -- the loop over the cancelled requests
  unfoldable pub destroy_chain : ℕ → Option Pointer → Loop W T Q → Torn (Loop W T Q)
  destroy_chain zero next l = out_of_fuel
  destroy_chain (suc fuel) none l = done l
  destroy_chain (suc fuel) (some r) l = elim (destroy_live r l) [
    | done l' ↦ destroy_chain fuel (l.requests r).next_cancelled l'
    | fault ↦ fault
    | out_of_fuel ↦ out_of_fuel
  ]

  -- the loops over the pending and the injected requests
  unfoldable pub destroy_list : List Pointer → Loop W T Q → Torn (Loop W T Q)
  destroy_list [] l = done l
  destroy_list (r ∷ rs) l = elim (destroy_live r l) [
    | done l' ↦ destroy_list rs l'
    | fault ↦ fault
    | out_of_fuel ↦ out_of_fuel
  ]

  -- one map, with a round for each node and one more
  unfoldable pub destroy_requests : Which → Loop W T Q → Torn (Loop W T Q)
  unfolding destroy_map
  destroy_requests k l = destroy_map (q.sum (λ j p. 1) (root_of k l) + 1) k l

  -- `curl_event_loop_destroy`; the fuel is for the chain of cancelled requests
  unfoldable pub loop_destroy : ℕ → Loop W T Q → Torn (Loop W T Q)
  unfolding destroy_requests destroy_chain destroy_list
  loop_destroy fuel l = do
    l₁ ← destroy_requests of_queued l
    l₂ ← destroy_requests of_inactive l₁
    l₃ ← destroy_requests of_refresh l₂
    l₄ ← destroy_requests of_limited l₃
    l₅ ← destroy_chain fuel l₄.cancelled_requests l₄
    l₆ ← destroy_list l₅.pending_requests (record l₅ { cancelled_requests = none })
    l₇ ← destroy_list l₆.injected_requests (record l₆ { pending_requests = [] })
    destroy_all (record l₇ { injected_requests = [] })
