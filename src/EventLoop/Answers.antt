-- ===== src/EventLoop/Answers.antt =====
-- What `process_completed_requests` does with one message.
use a_curl_library.EventLoop.Settling.{KeepsRetry, Away-settle_rate, told}
use a_curl_library.Base.{
  ℕ, ◌+◌, ◌<◌, arith, ◌≡◌, refl, ap, ◌∙◌, true, Option, none, some, ℤ, if◌then◌else◌, Bool-cases,
  inl, inr,
}
use a_curl_library.External.Double.{Double}
use a_curl_library.External.Table.{Table}
use a_curl_library.External.Queue.{Queue, IsQueue, count, is_request}
use a_curl_library.RateManager.{RateLimit}
use a_curl_library.Request.{Text, Pointer}
use a_curl_library.Loop.{Node}
use a_curl_library.EventLoop.{Sys, User, wrapper}
use a_curl_library.EventLoop.Complete.{
  Message, take_completed, tell_user, settle_rate, complete_one,
}
use a_curl_library.EventLoop.Outcome.{KeepsPool}
use a_curl_library.EventLoop.Moves.{IsCounted, Once, IsKept, IsKept-refl, Ends}
use a_curl_library.EventLoop.Conserve.{owed}
use a_curl_library.EventLoop.Frame.{dead}
use a_curl_library.EventLoop.Cuts.{IsKept-IsCut, IsCut-queued}
use a_curl_library.EventLoop.Put.{Put}
use a_curl_library.EventLoop.Away.{Away-after, Away-Put, Away-queued}

module _ {W T Q M : Type 0} ⦃d : Double W⦄ ⦃t : Table ℕ Node T⦄ ⦃m : Table Text (RateLimit W) M⦄
    ⦃q : Queue Q⦄ (laws : IsQueue Q) (u : User W) where
  -- taken out of the queue, and then put somewhere
  IsKept-take :
      (r : Pointer) (s s' : Sys W T Q M)
      → 0 < count r s.loop.queued_requests
      → Put u r (take_completed u r s).loop s'.loop
      → IsKept u s.loop s'.loop
  unfolding take_completed
  IsKept-take r s s' here h =
      IsKept-IsCut laws u r s.loop (take_completed u r s).loop s'.loop
        (IsCut-queued laws r s.loop here) h

  complete_one-told :
      (msg : Message) (s s' : Sys W T Q M) (retry_in : ℤ)
      → msg.is_done ≡ true
      → tell_user u msg (take_completed u msg.request s) ≡ some (s', retry_in)
      → complete_one u msg s ≡ settle_rate u msg retry_in s'
  unfolding complete_one
  complete_one-told msg s s' retry_in e h =
      let settled : Option (Sys W T Q M × ℤ) → Option (Sys W T Q M) =
        λ o. elim o [ none ↦ none | some (end, answer) ↦ settle_rate u msg answer end ] in
      ap (λ b. if b then settled (tell_user u msg (take_completed u msg.request s)) else some s) e
      ∙ ap settled h

  -- What a message comes to; a request that is done is not among the transfers any more.
  record Answered (msg : Message) (s : Sys W T Q M) : Type 0 where
    pub ends : Ends u s (complete_one u msg s)
    pub taken :
        msg.is_done ≡ true
        → ends.end.loop.queued_requests ≡ q.remove msg.request s.loop.queued_requests

  complete_one-Answered :
      (msg : Message) (f g : Pointer) (s : Sys W T Q M)
      → KeepsRetry u
      → 0 < count msg.request s.loop.queued_requests
      → (wrapper msg.request s).on_complete ≡ some f
      → (wrapper msg.request s).on_retry ≡ some g
      → Answered msg s
  unfolding complete_one take_completed
  complete_one-Answered msg f g s keeps here x y = elim (Bool-cases msg.is_done) [
    | inl e ↦
        let r = msg.request in
        let s₁ = take_completed u r s in
        let (s₂, retry_in, same, h) = told u msg f s₁ keeps x in
        let (s', same', put) = Away-settle_rate u msg retry_in g s₂ (h.on_retry ∙ y) in
        let away = Away-after u r s₁.loop s₂.loop s'.loop h.maps h.pools put in
        record {
          ends = record {
            end = s';
            same = complete_one-told msg s s₂ retry_in e same ∙ same';
            kept = IsKept-take r s s' here (Away-Put u r s₁.loop s'.loop away);
          };
          taken = λ done. Away-queued u r s₁.loop s'.loop away;
        }
    | inr e ↦ record {
      ends = record { end = s; same = rw (complete_one, e) refl; kept = IsKept-refl u s.loop };
      taken = λ done. cc (done, e);
    }
  ]

  -- A message about a request among the transfers, which has callbacks for success and for a retry,
  -- is processed without a call through NULL, whatever the callbacks answer and whatever the code of
  -- the response is, where they leave the pool and `on_retry` of the request as they are. If the
  -- counters were the sizes of their maps and no request stood in two places, the counters are so
  -- afterwards, and every request stands in as many maps, with one for its end, as before. Where the
  -- message says that the transfer is done, its request is no transfer any more, so that it stands
  -- among the requests that wait or is destroyed.
  pub complete_one-keeps :
      (msg : Message) (f g : Pointer) (s : Sys W T Q M)
      → KeepsPool u
      → KeepsRetry u
      → 0 < count msg.request s.loop.queued_requests
      → (wrapper msg.request s).on_complete ≡ some f
      → (wrapper msg.request s).on_retry ≡ some g
      → IsCounted s.loop
      → Once s.loop
      → (s' : Sys W T Q M) × (complete_one u msg s ≡ some s')
        × IsCounted s'.loop
        × ((p : Pointer) → owed p s'.loop ≡ owed p s.loop)
        × (msg.is_done ≡ true
            → (count msg.request s'.loop.queued_requests ≡ 0)
              × (count msg.request s'.loop.rate_limited_requests
                    + (count msg.request s'.loop.inactive_requests
                        + (count msg.request s'.loop.refresh_requests + dead msg.request s'.loop))
                  ≡ 1))
  complete_one-keeps msg f g s kept keeps here x y counted once =
      let a = complete_one-Answered msg f g s keeps here x y in
      let h = a.ends in
      let same = h.kept.conserved kept once in
      let (k, removed) = laws.sum-remove msg.request s.loop.queued_requests here in
      (
        h.end,
        h.same,
        h.kept.counted counted,
        same,
        λ done.
            let left : count msg.request h.end.loop.queued_requests ≡ 0 = ground (
              arith,
              ap (λ m. count msg.request m) (a.taken done),
              removed (is_request msg.request),
              once msg.request,
            ) in
            (left, omega (arith, left, same msg.request, once msg.request, here)),
      )
