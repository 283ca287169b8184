-- ===== src/WorkerPool/Rounds.antt =====
-- What a round of a worker has found, by its answer.
use a_curl_library.Base.{
  ◌≡◌, refl, ap, ◌∙◌, false, true, inl, inr, Bool-cases, Option-cases, List, [], ◌∷◌,
}
use a_curl_library.WorkerPool.{Work, WorkQueue, served, waiting, ended, worker_round}
use a_curl_library.WorkerPool.Fifo.{Pending, Stands, Refined, serve_first, round-Refined}

pub round-Stands :
    (q : WorkQueue) (p : Pending) → Stands q p → Refined (worker_round q) (serve_first p.works p)
round-Stands q p h = round-Refined h.entries q p h.queue h.same_works h.same_stop

pub round-stop : (q : WorkQueue) → (worker_round q).0.stop ≡ q.stop
unfolding worker_round
round-stop q = elim (Option-cases q.head) [
  | inl e ↦ rw e refl
  | inr (p, e) ↦ rw e (elim (Option-cases (q.heap p)) [
    | inl x ↦ rw x refl
    | inr (item, x) ↦
        rw x (elim (Option-cases item.next) [ inl y ↦ rw y refl | inr (t, y) ↦ rw y refl ])
  ])
]

-- What a round of a worker does, by its answer.
pub record Took (w : Work) (q : WorkQueue) (p : Pending) : Type 0 where
  pub rest : List Work
  pub works : p.works ≡ w ∷ rest
  pub stands : Stands (worker_round q).0 (record p { works = rest })

pub took :
    (w : Work) (ws : List Work) (q : WorkQueue) (p : Pending)
    → p.works ≡ ws
    → Refined (worker_round q) (serve_first ws p)
    → (worker_round q).1 ≡ served w
    → Took w q p
unfolding Refined
took w [] q p e (same, h) x = elim (Bool-cases p.is_stopped) [
  | inl y ↦ cc (rw y at same, x)
  | inr y ↦ cc (rw y at same, x)
]
took w (v ∷ ws) q p e (same, h) x = record {
  rest = ws;
  works = e ∙ ap (λ o. o ∷ ws) (cc (same, x));
  stands = h;
}

-- A worker that ends has found the queue stopped and empty.
pub left :
    (ws : List Work) (q : WorkQueue) (p : Pending)
    → p.works ≡ ws
    → Refined (worker_round q) (serve_first ws p)
    → (worker_round q).1 ≡ ended
    → (p.works ≡ []) × (p.is_stopped ≡ true) × Stands (worker_round q).0 p
unfolding Refined
left [] q p e (same, h) x = elim (Bool-cases p.is_stopped) [
  | inl y ↦ (e, y, h)
  | inr y ↦ cc (rw y at same, x)
]
left (v ∷ ws) q p e (same, h) x = cc (same, x)

-- A worker that goes to sleep has found the queue empty and not stopped.
pub slept :
    (ws : List Work) (q : WorkQueue) (p : Pending)
    → p.works ≡ ws
    → Refined (worker_round q) (serve_first ws p)
    → (worker_round q).1 ≡ waiting
    → (p.is_stopped ≡ false) × Stands (worker_round q).0 p
unfolding Refined
slept [] q p e (same, h) x = elim (Bool-cases p.is_stopped) [
  | inl y ↦ cc (rw y at same, x)
  | inr y ↦ (y, h)
]
slept (v ∷ ws) q p e (same, h) x = cc (same, x)
