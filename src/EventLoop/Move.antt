-- ===== src/EventLoop/Move.antt =====
-- `move_inactive_requests_to_queue`. A result `none` is a loop that is out of fuel.
use a_curl_library.Base.{
  ℕ, zero, suc, ◌+◌, Bool, true, false, Option, none, some, pos, ◌-ℤ◌, ltb, if◌then◌else◌,
}
use a_curl_library.External.Double.{Double}
use a_curl_library.External.Table.{Table}
use a_curl_library.External.Queue.{Queue}
use a_curl_library.RateManager.{RateLimit}
use a_curl_library.Request.{Text, Pointer}
use a_curl_library.Loop.{Node}
use a_curl_library.EventLoop.{Sys, User, read_clock, wrapper, on_loop, insert_by_time}
use a_curl_library.EventLoop.Start.{request_is_rate_limited, request_ready, request_start}

-- The number of nodes of a map, and one round more.
abbrev pub rounds : {Q : Type 0} ⦃q : Queue Q⦄ → Q → ℕ
rounds ⦃q⦄ root = q.sum (λ k p. 1) root + 1

module _ {W T Q M : Type 0} ⦃d : Double W⦄ ⦃t : Table ℕ Node T⦄ ⦃m : Table Text (RateLimit W) M⦄
    ⦃q : Queue Q⦄ (u : User W) where
  -- The body that the three loops share: the first request `r` of the map `root` is moved to the
  -- rate-limited ones, or started, or is not ready, which ends the loop. The answer tells whether
  -- the loop goes on.
  unfoldable pub try_start : Pointer → Q → Sys W T Q M → Sys W T Q M × Q × Bool
  unfolding request_is_rate_limited request_ready request_start
  try_start r root s =
      let (s₁, root₁, limited) = request_is_rate_limited r root s in
      let (s₂, ready) = request_ready r s₁ in
      if limited
      then (s₁, root₁, true)
      else (if ready
          then ((request_start u r s₂).0, q.remove r root₁, true)
          else (s₂, root₁, false))

  -- the loop over the requests that were rate limited and are due
  unfoldable pub retry_limited : ℕ → (now : ℕ) → Q → Sys W T Q M → Option (Sys W T Q M × Q)
  unfolding try_start
  retry_limited zero now root s = none
  retry_limited (suc fuel) now root s = elim (q.front root) [
    | none ↦ some (s, root)
    | some r ↦
        let (s', root', more) = try_start r root s in
        elim (ltb now (wrapper r s).next_retry_at) [
          | true ↦ some (s, root)
          | false ↦ elim more [ true ↦ retry_limited fuel now root' s' | false ↦ some (s', root') ]
        ]
  ]

  -- those that became rate limited in the meantime join the rest
  unfoldable pub merge_limited : ℕ → Q → Sys W T Q M → Option (Sys W T Q M × Q)
  merge_limited zero root s = none
  merge_limited (suc fuel) root s = elim (q.front s.loop.rate_limited_requests) [
    | none ↦ some (s, root)
    | some r ↦
        merge_limited fuel (insert_by_time r root s)
          (on_loop (λ l. record l { rate_limited_requests = q.remove r l.rate_limited_requests }) s)
  ]

  unfoldable pub move_refresh : ℕ → Sys W T Q M → Option (Sys W T Q M)
  unfolding try_start
  move_refresh zero s = none
  move_refresh (suc fuel) s = elim (q.front s.loop.refresh_requests) [
    | none ↦ some s
    | some r ↦
        let (s', root, more) = try_start r s.loop.refresh_requests s in
        elim more [
          | true ↦ move_refresh fuel (
              on_loop
                (λ l. record l {
                  refresh_requests = root;
                  num_refresh_requests = l.num_refresh_requests -ℤ pos 1;
                })
                s')
          | false ↦ some (on_loop (λ l. record l { refresh_requests = root }) s')
        ]
  ]

  unfoldable pub move_inactive : ℕ → Sys W T Q M → Option (Sys W T Q M)
  unfolding try_start
  move_inactive zero s = none
  move_inactive (suc fuel) s = elim (q.front s.loop.inactive_requests) [
    | none ↦ some s
    | some r ↦
        let (s', root, more) = try_start r s.loop.inactive_requests s in
        elim more [
          | true ↦ move_inactive fuel (
              on_loop
                (λ l. record l {
                  inactive_requests = root;
                  num_inactive_requests = l.num_inactive_requests -ℤ pos 1;
                })
                s')
          | false ↦ some (on_loop (λ l. record l { inactive_requests = root }) s')
        ]
  ]

  unfoldable pub move_limited : Sys W T Q M → Option (Sys W T Q M)
  unfolding retry_limited merge_limited
  move_limited s =
      let root = s.loop.rate_limited_requests in
      let (s₁, now) =
        read_clock (on_loop (λ l. record l { rate_limited_requests = q.nothing }) s) in
      elim (retry_limited (rounds root) now root s₁) [
        | none ↦ none
        | some (s₂, rest) ↦ elim (merge_limited (rounds s₂.loop.rate_limited_requests) rest s₂) [
          | none ↦ none
          | some (s₃, all) ↦ some (on_loop (λ l. record l { rate_limited_requests = all }) s₃)
        ]
      ]

  -- `move_inactive_requests_to_queue`
  unfoldable pub move_to_queue : Sys W T Q M → Option (Sys W T Q M)
  unfolding move_limited move_refresh move_inactive
  move_to_queue s = elim (move_limited s) [
    | none ↦ none
    | some s₁ ↦ elim (move_refresh (rounds s₁.loop.refresh_requests) s₁) [
      | none ↦ none
      | some s₂ ↦ move_inactive (rounds s₂.loop.inactive_requests) s₂
    ]
  ]
