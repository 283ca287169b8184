-- ===== src/Resource/Tests.antt =====
-- Resources of concrete loops.
use a_curl_library.Base.{
  All, ℕ, zero, suc, ◌+◌, ◌≡◌, ◌≢◌, refl, true, false, Option, none, some, List, [], ◌∷◌, pos,
  negsuc, arith,
}
use a_curl_library.External.Slots.{slots, slots-IsTable}
use a_curl_library.Request.{Pointer, Wrapper}
use a_curl_library.Loop.{Node, Loop, Op, publish, release}
use a_curl_library.Resource.Refs.{placeholder, or_placeholder, node_of, peek}
use a_curl_library.Resource.Publish
use a_curl_library.Resource.Blocking.{all_ready_list, check_and_block_list}
use a_curl_library.Resource.Inbox.{apply_ops, inbox_drain, set_owner_thread}
use a_curl_library.Resource.Teardown.{done, destroy_all}
use a_curl_library.Resource.Balance.{cleans}
use a_curl_library.Resource.Conservation.{published_by}
use a_curl_library.Resource.Ending.{Ends, destroy_all-Ends}
use a_curl_library.Resource.Total.{every_payload_cleaned}
use a_curl_library.Resource.Nodes.{Nodes}
use a_curl_library.Resource.Safety.{IsManual, publish_safe}
use a_curl_library.Resource.Waking.{Woken, publish_wakes, publish-peek}
use a_curl_library.Resource.Order.{
  Post, releases, registers, post_all, ops_of, drain_in_order, owner_thread_drops_posts,
}
use a_curl_library.Resource.Waits.{first_unmet, Checked, check_blocks_first_unmet}
use a_curl_library.Resource.Faults.{failure_reads_freed_node}

abbrev NodesOf : Type 0
NodesOf = List (Option Node)

abbrev State : Type 0
State = Loop ℕ NodesOf (Unit {0})

-- A request that depends on resource 1 and has retained it.
abbrev waiting : Wrapper ℕ
waiting = record {
  request = record {
    pool = true;
    url = none;
    method = none;
    post_data = none;
    headers = [];
    deps = 1 ∷ [];
    rate_limit = none;
    rate_limit_high_priority = false;
    connect_timeout = pos 0;
    transfer_timeout = pos 0;
    low_speed_limit = pos 0;
    low_speed_time = pos 0;
    max_retries = pos 0;
    backoff_factor = 2000;
    min_backoff_delay_ms = 0;
    max_backoff_delay_ms = 0;
    full_jitter = true;
    on_complete = none;
    on_failure = some 77;
    write_cb = none;
    on_retry = none;
    on_prepare = none;
    sink_data = none;
    sink_data_cleanup = none;
    plugin_data = none;
    plugin_data_cleanup = none;
    should_refresh = false;
    sink_initialized = false;
    max_download_size = pos 0;
    json_root = none;
    json_set_ct = true;
    current_retries = pos 0;
    next_retry_at = 0;
    start_time = 0;
    request_start_time = 0;
    priority = pos 0;
    http3_override = negsuc 0;
    refresh_interval_ms = 0;
    refresh_backoff_on_errors = true;
  };
  multi_handle = false;
  easy_handle = none;
  next_cancelled = none;
  content_length = negsuc 0;
  content_length_found = false;
  is_injected = false;
  is_cancelled = false;
  is_pending = false;
  deps_retained = true;
  bytes_downloaded = pos 0;
}

-- A loop with no resources.
abbrev fresh : State
fresh = record {
  requests = λ _. waiting;
  enable_http3 = true;
  max_concurrent_requests = 1000;
  keep_running = true;
  queued_requests = tt;
  inactive_requests = tt;
  refresh_requests = tt;
  rate_limited_requests = tt;
  resources = [];
  res_inbox = [];
  num_queued_requests = pos 0;
  num_multi_requests = pos 0;
  num_inactive_requests = pos 0;
  num_refresh_requests = pos 0;
  metrics = record {
    total_requests = 0;
    completed_requests = 0;
    failed_requests = 0;
    retried_requests = 0;
  };
  cancelled_requests = none;
  pending_requests = [];
  injected_requests = [];
  next_id = 1;
  log = [];
}

-- Resource 1 with the references of its owner and of the waiter 5.
abbrev awaited : Node
awaited = record placeholder { refcnt = pos 2; blocked = 5 ∷ [] }

abbrev blocked_loop : State
blocked_loop = record fresh { resources = none ∷ some awaited ∷ [] }

blocked_node-IsManual : (id : ℕ) (n : Node) → node_of id blocked_loop ≡ some n → IsManual n
blocked_node-IsManual zero n e = cc
blocked_node-IsManual (suc zero) n e = ground arith
blocked_node-IsManual (suc (suc id)) n e = cc

blocked_loop-IsManual : Nodes IsManual blocked_loop
blocked_loop-IsManual = record { at = blocked_node-IsManual }

-- Two waiters, and an owner that goes by itself.
abbrev fragile : Node
fragile = record placeholder { refcnt = pos 2; auto_release_owner = true; blocked = 5 ∷ 6 ∷ [] }

abbrev fragile_loop : State
fragile_loop = record fresh { resources = none ∷ some fragile ∷ [] }

abbrev script : List Op
script = publish 3 (some 40) (some 9) ∷ publish 3 (some 41) (some 9) ∷ release 3 ∷ []

abbrev posts : List Post
posts = registers (some 40) (some 9) ∷ releases 1 ∷ []

every_payload_cleaned_example :
    (s₁ : State) × (s₂ : State) × (apply_ops script fresh ≡ some s₁)
    × (destroy_all s₁ ≡ done s₂)
    × (s₂.resources ≡ [])
    × ((f p : Pointer) → cleans f p s₂.log ≡ 0 + published_by f p script)
every_payload_cleaned_example = every_payload_cleaned (slots-IsTable Node) script fresh refl

destroy_all-Ends_example : Ends (slots-IsTable Node) blocked_loop (destroy_all blocked_loop)
destroy_all-Ends_example = destroy_all-Ends (slots-IsTable Node) blocked_loop

publish_safe_example :
    (s' : State) × (Publish.publish 1 none none blocked_loop ≡ some s') × Nodes IsManual s'
publish_safe_example =
    publish_safe (slots-IsTable Node) 1 none none blocked_loop blocked_loop-IsManual

publish_wakes_example :
    (s' : State) × (Publish.publish 1 (some 40) none blocked_loop ≡ some s')
    × Woken 1 40 none blocked_loop s'
    × All (λ r. (s'.requests r).pool ≡ true) (or_placeholder (node_of 1 blocked_loop)).blocked
publish_wakes_example = publish_wakes (slots-IsTable Node) 1 40 none blocked_loop (refl, tt)

publish-peek_example :
    (s' : State) × (Publish.publish 1 (some 40) none blocked_loop ≡ some s')
    × (peek 1 s' ≡ some 40)
    × (all_ready_list (1 ∷ []) s' ≡ true)
    × ((or_placeholder (node_of 1 s')).blocked ≡ [])
    × ((j : ℕ) → j ≢ 1 → node_of j s' ≡ node_of j blocked_loop)
publish-peek_example = publish-peek (slots-IsTable Node) 1 40 none blocked_loop

drain_in_order_example :
    inbox_drain (post_all posts blocked_loop)
    ≡ apply_ops
        (ops_of posts blocked_loop)
        (record (post_all posts blocked_loop) { res_inbox = [] })
drain_in_order_example = drain_in_order posts blocked_loop refl

owner_thread_drops_posts_example :
    (s' : State) × (inbox_drain (set_owner_thread (post_all posts blocked_loop)) ≡ some s')
    × (s'.resources ≡ blocked_loop.resources)
    × (s'.res_inbox ≡ [])
owner_thread_drops_posts_example = owner_thread_drops_posts posts blocked_loop

check_blocks_first_unmet_example :
    Checked 8
      (first_unmet (1 ∷ 2 ∷ []) blocked_loop)
      blocked_loop
      (check_and_block_list 8 (1 ∷ 2 ∷ []) blocked_loop)
check_blocks_first_unmet_example =
    check_blocks_first_unmet (slots-IsTable Node) 8 (1 ∷ 2 ∷ []) blocked_loop

failure_reads_freed_node_example : Publish.publish 1 none none fragile_loop ≡ none
failure_reads_freed_node_example =
    failure_reads_freed_node (slots-IsTable Node) 1 none fragile 5 6 [] fragile_loop refl refl refl
      refl (record { deps = refl; retained = refl })
