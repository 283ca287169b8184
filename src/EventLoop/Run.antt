-- ===== src/EventLoop/Run.antt =====
-- `curl_event_loop_run`.
use a_curl_library.Base.{
  ℕ, Bool, true, false, ◌&&◌, Option, none, some, List, [], ◌∷◌, pos, ltb_ℤ, ◌==◌, if◌then◌else◌,
}
use a_curl_library.External.Double.{Double}
use a_curl_library.External.Table.{Table}
use a_curl_library.External.Queue.{Queue}
use a_curl_library.RateManager.{RateLimit}
use a_curl_library.Request.{Text, Pointer}
use a_curl_library.Loop.{Node, Loop}
use a_curl_library.Resource.Refs.{is_empty}
use a_curl_library.Resource.Teardown.{done, fault, out_of_fuel}
use a_curl_library.Resource.Inbox.{set_owner_thread, inbox_drain}
use a_curl_library.EventLoop.{Sys, User, on_loop}
use a_curl_library.EventLoop.Pending.{process_cancelled_and_pending}
use a_curl_library.EventLoop.Move.{move_to_queue}
use a_curl_library.EventLoop.Complete.{Message, process_completed}
use a_curl_library.EventLoop.Timer.{next_timer_expiry}

-- How a round ends. The last three are the faults of the parts.
pub data Turn (S : Type 0) : Type 0 where
  goes_on exits : S → Turn S
  freed_read null_call no_fuel : Turn S

-- What comes from outside in a round: the user's `on_loop`, if it is set, the transfers that
-- `curl_multi_perform` still runs, and the messages. The fuel is for the cancelled requests.
pub record Round (S : Type 0) : Type 0 where
  pub on_loop : Option (S → S × Bool)
  pub running : ℕ
  pub messages : List Message
  pub fuel : ℕ

abbrev pub call_on_loop : {S : Type 0} → Option (S → S × Bool) → S → S × Bool
call_on_loop none s = (s, true)
call_on_loop (some f) s = f s

abbrev is_none : Option Pointer → Bool
is_none none = true
is_none (some r) = false

module _ {W T Q : Type 0} ⦃q : Queue Q⦄ where
  -- no transfer runs, and nothing waits in the lists that are looked at
  unfoldable pub may_exit : (still_running : ℕ) → Loop W T Q → Bool
  may_exit still_running l =
      (still_running == 0)
      && (is_empty l.pending_requests
          && (is_none (q.front l.queued_requests)
              && (is_none (q.front l.refresh_requests) && is_none (q.front l.inactive_requests))))

module _ {W T Q M : Type 0} ⦃d : Double W⦄ ⦃t : Table ℕ Node T⦄ ⦃m : Table Text (RateLimit W) M⦄
    ⦃q : Queue Q⦄ (u : User W) where
  -- the round behind the scheduling
  unfoldable pub end_round : Round (Sys W T Q M) → Sys W T Q M → Turn (Sys W T Q M)
  unfolding process_completed inbox_drain may_exit next_timer_expiry
  end_round i s =
      let still_running = if ltb_ℤ (pos 0) s.loop.num_queued_requests then i.running else 0 in
      elim (process_completed u i.messages s) [
        | none ↦ null_call
        | some s₁ ↦ elim (inbox_drain s₁.loop) [
          | none ↦ freed_read
          | some l ↦
              let s₂ = record s₁ { loop = l } in
              if may_exit still_running l then exits s₂ else goes_on (next_timer_expiry 200 s₂).0
        ]
      ]

  -- the round behind `on_loop`
  unfoldable pub schedule : Round (Sys W T Q M) → Sys W T Q M → Turn (Sys W T Q M)
  unfolding process_cancelled_and_pending move_to_queue end_round
  schedule i s = elim (process_cancelled_and_pending u i.fuel s) [
    | fault ↦ freed_read
    | out_of_fuel ↦ no_fuel
    | done s₁ ↦ elim (move_to_queue u s₁) [ none ↦ no_fuel | some s₂ ↦ end_round i s₂ ]
  ]

  unfoldable pub round : Round (Sys W T Q M) → Sys W T Q M → Turn (Sys W T Q M)
  unfolding schedule set_owner_thread
  round i s =
      let (s₁, more) = call_on_loop i.on_loop (on_loop set_owner_thread s) in
      if more then schedule i s₁ else exits s₁

  -- the loop, over the rounds' inputs
  unfoldable pub run_rounds : List (Round (Sys W T Q M)) → Sys W T Q M → Turn (Sys W T Q M)
  unfolding round
  run_rounds [] s = goes_on s
  run_rounds (i ∷ is) s = elim s.loop.keep_running [
    | false ↦ exits s
    | true ↦ elim (round i s) [
      | goes_on s' ↦ run_rounds is s'
      | exits s' ↦ exits s'
      | freed_read ↦ freed_read
      | null_call ↦ null_call
      | no_fuel ↦ no_fuel
    ]
  ]

  unfoldable pub run : List (Round (Sys W T Q M)) → Sys W T Q M → Turn (Sys W T Q M)
  unfolding run_rounds
  run is s = run_rounds is (on_loop (λ l. record l { keep_running = true }) s)
