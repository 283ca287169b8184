-- ===== src/WorkerPool/Sound.antt =====
-- The pool with its threads: what every step keeps.
use a_curl_library.Base.{ℕ, ◌+◌, ◌<◌, ◌≡◌, refl, ap, ◌∙◌, false, true, List, [], ◌∷◌, ◌++◌, arith}
use a_curl_library.WorkerPool.{Work, Heap}
use a_curl_library.WorkerPool.Fifo.{Pending, Stands, Refined, push-Refined, stop-Refined}
use a_curl_library.WorkerPool.Rounds.{round-Stands, round-stop, took, left, slept}
use a_curl_library.WorkerPool.Threads.{
  Pool, pool_init, Step, accepts, takes, sleeps, wakes, total, one_each, finishes, leaves, stops,
  frees, Reach, here, then_step,
}

pub total_append : (f : Work → ℕ) (xs ys : List Work) → total f (xs ++ ys) ≡ total f xs + total f ys
total_append f [] ys = omega arith
total_append f (x ∷ xs) ys = omega (arith, total_append f xs ys)

-- No item is lost or run twice, no worker is lost, no worker has ended or sleeps on in a way that the
-- stop forbids, and the pool is freed behind its joins.
pub record IsSound (num_threads : ℕ) (s : Pool) : Type 0 where
  pub pending : Pending
  pub stands : Stands s.queue pending
  pub items :
      (f : Work → ℕ)
      → total f s.accepted ≡ total f s.finished + (total f s.busy + total f pending.works)
  pub workers : s.idle + (s.asleep + (total one_each s.busy + s.exited)) ≡ num_threads
  pub threads : s.num_threads ≡ num_threads
  pub stops_first : 0 < s.exited → pending.is_stopped ≡ true
  pub rested : pending.is_stopped ≡ true → s.asleep ≡ 0
  pub joined_first : s.is_freed ≡ true → (s.queue.stop ≡ true) × (s.exited ≡ num_threads)

pub IsSound-Step : (n : ℕ) (s s' : Pool) → Step s s' → IsSound n s → IsSound n s'
unfolding Refined
IsSound-Step n _ _ (accepts p w s free live) k =
    let (same, h) = push-Refined p w s.queue k.pending free k.stands in
    record {
      pending = record k.pending { works = k.pending.works ++ w ∷ [] };
      stands = h;
      items = λ f. omega (arith, k.items f, total_append f k.pending.works (w ∷ []));
      workers = omega (arith, k.workers);
      threads = k.threads;
      stops_first = k.stops_first;
      rested = λ x. omega (arith, k.rested x);
      joined_first = λ x. cc (x, live);
    }
IsSound-Step n _ _ (takes w m s idle x) k =
    let t =
      took w k.pending.works s.queue k.pending refl (round-Stands s.queue k.pending k.stands) x in
    record {
      pending = record k.pending { works = t.rest };
      stands = t.stands;
      items = λ f. omega (arith, k.items f, ap (total f) t.works);
      workers = omega (arith, k.workers, idle);
      threads = k.threads;
      stops_first = k.stops_first;
      rested = k.rested;
      joined_first = λ y. (round-stop s.queue ∙ (k.joined_first y).0, (k.joined_first y).1);
    }
IsSound-Step n _ _ (sleeps m s idle x) k =
    let (running, h) =
      slept k.pending.works s.queue k.pending refl (round-Stands s.queue k.pending k.stands) x in
    record {
      pending = k.pending;
      stands = h;
      items = k.items;
      workers = omega (arith, k.workers, idle);
      threads = k.threads;
      stops_first = k.stops_first;
      rested = λ y. cc (y, running);
      joined_first = λ y. (round-stop s.queue ∙ (k.joined_first y).0, (k.joined_first y).1);
    }
IsSound-Step n _ _ (wakes m s x) k = record {
  pending = k.pending;
  stands = k.stands;
  items = k.items;
  workers = omega (arith, k.workers, x);
  threads = k.threads;
  stops_first = k.stops_first;
  rested = λ y. omega (arith, k.rested y, x);
  joined_first = k.joined_first;
}
IsSound-Step n _ _ (finishes before w after s e) k = record {
  pending = k.pending;
  stands = k.stands;
  items = λ f. omega (
    arith,
    k.items f,
    ap (total f) e,
    total_append f before (w ∷ after),
    total_append f before after,
  );
  workers = omega (
    arith,
    k.workers,
    ap (total one_each) e,
    total_append one_each before (w ∷ after),
    total_append one_each before after,
  );
  threads = k.threads;
  stops_first = k.stops_first;
  rested = k.rested;
  joined_first = k.joined_first;
}
IsSound-Step n _ _ (leaves m s idle x) k =
    let (empty, stopped, h) =
      left k.pending.works s.queue k.pending refl (round-Stands s.queue k.pending k.stands) x in
    record {
      pending = k.pending;
      stands = h;
      items = k.items;
      workers = omega (arith, k.workers, idle);
      threads = k.threads;
      stops_first = λ y. stopped;
      rested = k.rested;
      joined_first = λ y. (
        round-stop s.queue ∙ (k.joined_first y).0,
        omega (arith, k.workers, idle, (k.joined_first y).1),
      );
    }
IsSound-Step n _ _ (stops s running) k =
    let (same, h) = stop-Refined s.queue k.pending k.stands in
    record {
      pending = record k.pending { is_stopped = true };
      stands = h;
      items = k.items;
      workers = omega (arith, k.workers);
      threads = k.threads;
      stops_first = λ y. refl;
      rested = λ y. refl;
      joined_first = λ y. (refl, (k.joined_first y).1);
    }
IsSound-Step n _ _ (frees s stopped all live) k = record {
  pending = k.pending;
  stands = k.stands;
  items = k.items;
  workers = k.workers;
  threads = k.threads;
  stops_first = k.stops_first;
  rested = k.rested;
  joined_first = λ y. (stopped, all ∙ k.threads);
}

pub IsSound-Reach : (n : ℕ) (s s' : Pool) → Reach s s' → IsSound n s → IsSound n s'
IsSound-Reach n _ _ (here s) k = k
IsSound-Reach n _ _ (then_step s s' s'' r x) k = IsSound-Step n s' s'' x (IsSound-Reach n s s' r k)

pub pool_init-IsSound : (n : ℕ) (heap : Heap) → IsSound n (pool_init n heap)
pool_init-IsSound n heap = record {
  pending = record { works = []; is_stopped = false };
  stands = record {
    entries = [];
    queue = record { chained = refl; distinct = tt; at_tail = refl };
    same_works = refl;
    same_stop = refl;
  };
  items = λ f. omega arith;
  workers = omega arith;
  threads = refl;
  joined_first = λ x. cc x;
  stops_first = λ x. ground (arith, x);
  rested = λ x. refl;
}
