-- ===== src/WorkerPool/Joins.antt =====
-- worker_pool_destroy: its joins return, and then all that was pushed has been run.
use a_curl_library.Base.{
  ℕ, ◌+◌, ◌<◌, ◌≡◌, refl, ap, Bool, true, false, Bool-cases, inl, inr, ◌⊎◌, List, [], ◌∷◌, arith,
}
use a_curl_library.WorkerPool.{Work, Heap, push}
use a_curl_library.WorkerPool.Fifo.{push-stop}
use a_curl_library.WorkerPool.Threads.{
  Pool, pool_init, Step, accepts, takes, sleeps, wakes, finishes, leaves, stops, frees, is_push,
  Reach, here, then_step, IsOrderly, total, one_each,
}
use a_curl_library.WorkerPool.Rounds.{round-Stands, round-stop, left, slept}
use a_curl_library.WorkerPool.Sound.{total_append, IsSound, IsSound-Reach, pool_init-IsSound}

no_items : (ws : List Work) → total one_each ws ≡ 0 → ws ≡ []
no_items [] h = refl
no_items (w ∷ ws) h = ground (arith, h)

-- In a stopped pool whose workers neither run an item nor are at the pop, no item waits.
abbrev Drained : Pool → Type 0
Drained s =
    s.queue.stop ≡ true
    → s.idle + total one_each s.busy ≡ 0
    → total one_each s.accepted ≡ total one_each s.finished

stops_late : (exited : ℕ) (b : Bool) → (0 < exited → b ≡ true) → b ≡ false → 0 < exited → ⊥
stops_late exited b first e h = cc (first h, e)

Drained-Step :
    (n : ℕ) (s s' : Pool) (x : Step s s')
    → 0 < n
    → IsSound n s
    → (is_push s s' x ≡ true → (s.queue.stop ≡ false) ⊎ (0 < total one_each s.busy))
    → Drained s
    → Drained s'
unfolding is_push push
Drained-Step n _ _ (accepts p w s free live) some k ok h = λ x y. elim (ok refl) [
  | inl running ↦ cc (push-stop p w s.queue, running, x)
  | inr busy ↦ absurd (omega (arith, busy, y))
]
Drained-Step n _ _ (takes w m s idle e) some k ok h = λ x y. absurd (omega (arith, y))
Drained-Step n _ _ (sleeps m s idle e) some k ok h =
    let (running, stands) =
      slept k.pending.works s.queue k.pending refl (round-Stands s.queue k.pending k.stands) e in
    λ x y. cc (round-stop s.queue, x, running, k.stands.same_stop)
Drained-Step n _ _ (wakes m s e) some k ok h = λ x y. absurd (omega (arith, y))
Drained-Step n _ _ (finishes before w after s e) some k ok h = λ x y. absurd (omega (arith, y))
Drained-Step n _ _ (leaves m s idle e) some k ok h =
    let (empty, stopped, stands) =
      left k.pending.works s.queue k.pending refl (round-Stands s.queue k.pending k.stands) e in
    λ x y. omega (arith, k.items one_each, ap (total one_each) empty, y)
Drained-Step n _ _ (stops s running) some k ok h = λ x y. elim (Bool-cases k.pending.is_stopped) [
  | inl z ↦ cc (k.stands.same_stop, z, running)
  | inr z ↦
      absurd (
        stops_late s.exited k.pending.is_stopped k.stops_first z
          (omega (arith, k.workers, some, y)))
]
Drained-Step n _ _ (frees s stopped all live) some k ok h = h

Drained-Reach :
    (n : ℕ) (s s' : Pool) (r : Reach s s')
    → 0 < n
    → IsSound n s
    → IsOrderly s s' r
    → Drained s
    → Drained s'
unfolding IsOrderly
Drained-Reach n _ _ (here s) some k ok h = h
Drained-Reach n _ _ (then_step s s' s'' r x) some k ok h =
    Drained-Step n s' s'' x some (IsSound-Reach n s s' r k) ok.1
      (Drained-Reach n s s' r some k ok.0 h)

freed_stays : (n : ℕ) (s s' : Pool) → IsSound n s → s.is_freed ≡ true → ¬ Step s s'
freed_stays n _ _ k freed (accepts p w s free live) = cc (freed, live)
freed_stays n _ _ k freed (takes w m s idle e) =
    omega (arith, k.workers, idle, (k.joined_first freed).1)
freed_stays n _ _ k freed (sleeps m s idle e) =
    omega (arith, k.workers, idle, (k.joined_first freed).1)
freed_stays n _ _ k freed (wakes m s e) = omega (arith, k.workers, e, (k.joined_first freed).1)
freed_stays n _ _ k freed (finishes before w after s e) = omega (
  arith,
  k.workers,
  (k.joined_first freed).1,
  ap (total one_each) e,
  total_append one_each before (w ∷ after),
)
freed_stays n _ _ k freed (leaves m s idle e) =
    omega (arith, k.workers, idle, (k.joined_first freed).1)
freed_stays n _ _ k freed (stops s running) = cc ((k.joined_first freed).0, running)
freed_stays n _ _ k freed (frees s stopped all live) = cc (freed, live)

-- However the pushes, the workers, their sleep on the condition and the stop are interleaved in a pool
-- of at least one worker, where every push comes before the stop or while an item runs: once
-- worker_pool_destroy has freed the pool, each pushed item has been run exactly once (a weight of the
-- items has the same sum over those run as over those pushed), and no worker takes a further step.
pub destroyed_runs_all :
    (num_threads : ℕ) (heap : Heap) (s : Pool) (r : Reach (pool_init num_threads heap) s)
    → IsOrderly (pool_init num_threads heap) s r
    → 0 < num_threads
    → s.is_freed ≡ true
    → ((f : Work → ℕ) → total f s.finished ≡ total f s.accepted) × ((s' : Pool) → ¬ Step s s')
destroyed_runs_all n heap s r ok some_worker freed =
    let start = pool_init-IsSound n heap in
    let k = IsSound-Reach n (pool_init n heap) s r start in
    let (stopped, all) = k.joined_first freed in
    let drained = Drained-Reach n (pool_init n heap) s r some_worker start ok (λ x y. refl) in
    let same = drained stopped (omega (arith, k.workers, all)) in
    let quiet = no_items s.busy (omega (arith, k.workers, all)) in
    let empty = no_items k.pending.works (omega (arith, k.items one_each, same)) in
    (
      λ f. omega (arith, k.items f, ap (total f) empty, ap (total f) quiet),
      λ s'. freed_stays n s s' k freed,
    )
