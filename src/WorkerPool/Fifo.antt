-- ===== src/WorkerPool/Fifo.antt =====
-- The linked queue is a list, served from its front.
use a_curl_library.Base.{
  ◌≡◌, refl, ap, ◌∙◌, sym, Bool, true, Option, none, some, List, [], ◌∷◌, ◌++◌, if◌then◌else◌, map,
  ==_iff, Option-cases, inl, inr,
}
use a_curl_library.Request.{Pointer}
use a_curl_library.WorkerPool.{
  Work, WorkItem, Heap, WorkQueue, set_item, push, Answer, pushed, stopped, waiting, ended, served,
  unlink_head, serve, worker_round, stop_queue, Command, pushes, stops, rounds, command, answers,
}
use a_curl_library.WorkerPool.Linked.{
  Entry, Chain, Avoids, Distinct, last_of, Chain-set, Chain-Avoids, Distinct-snoc, Chain-snoc,
  last-some, last-snoc,
}

-- These entries are the queue, from its head to its tail.
pub record IsQueue (es : List Entry) (q : WorkQueue) : Type 0 where
  pub chained : Chain q.heap q.head es
  pub distinct : Distinct es
  pub at_tail : q.tail ≡ last_of es

-- What the queue stands for: the pending work, and whether it is stopped.
pub record Pending : Type 0 where
  pub works : List Work
  pub is_stopped : Bool

abbrev pub serve_first : List Work → Pending → Pending × Answer
serve_first [] s = (s, if s.is_stopped then ended else waiting)
serve_first (w ∷ ws) s = (record s { works = ws }, served w)

-- The commands on a list.
unfoldable pub ideal : Command → Pending → Pending × Answer
ideal (pushes p w) s = (record s { works = s.works ++ w ∷ [] }, pushed)
ideal stops s = (record s { is_stopped = true }, stopped)
ideal rounds s = serve_first s.works s

unfoldable pub ideal_answers : List Command → Pending → List Answer
unfolding ideal
ideal_answers [] s = []
ideal_answers (c ∷ cs) s = let (s', a) = ideal c s in a ∷ ideal_answers cs s'

-- Each push has the address of memory that is not in use at the time.
unfoldable pub IsAllocated : List Command → WorkQueue → Type 0
IsAllocated [] q = Unit
IsAllocated (pushes p w ∷ cs) q = (q.heap p ≡ none) × IsAllocated cs (command (pushes p w) q).0
IsAllocated (c ∷ cs) q = IsAllocated cs (command c q).0

set_here : (p : Pointer) (item : Option WorkItem) (heap : Heap) → set_item p item heap p ≡ item
set_here p item heap = rw ((==_iff p p).1 refl) refl

push-IsQueue :
    (p : Pointer) (w : Work) (es : List Entry) (q : WorkQueue)
    → q.heap p ≡ none
    → IsQueue es q
    → IsQueue (es ++ (p, w) ∷ []) (push p w q)
unfolding push
push-IsQueue p w [] q free h = rw h.at_tail (record {
  chained = (refl, none, set_here p _ q.heap, refl);
  distinct = (tt, tt);
  at_tail = refl;
})
push-IsQueue p w (e ∷ es) q free h =
    let (t, last) = last-some e es in
    let away = Chain-Avoids p q.heap q.head (e ∷ es) free h.chained in
    let item : WorkItem = record { work = w; next = none } in
    rw (h.at_tail ∙ last) (record {
      chained =
          Chain-snoc p w t (set_item p (some item) q.heap) q.head e es h.distinct away last
            (set_here p (some item) q.heap)
            (Chain-set p (some item) q.heap q.head (e ∷ es) away h.chained);
      distinct = Distinct-snoc p w (e ∷ es) away h.distinct;
      at_tail = sym (last-snoc p w (e ∷ es));
    })

unlink-tail :
    (p : Pointer) (w : Work) (n : Option Pointer) (es : List Entry) (q : WorkQueue)
    → q.tail ≡ last_of ((p, w) ∷ es)
    → Chain q.heap n es
    → ((unlink_head n q).tail ≡ last_of es)
      × ((unlink_head n q).head ≡ n)
      × ((unlink_head n q).heap ≡ q.heap)
      × ((unlink_head n q).stop ≡ q.stop)
unlink-tail p w none [] q e rest = (refl, refl, refl, refl)
unlink-tail p w none ((a, v) ∷ es) q e rest = cc (rest.0)
unlink-tail p w (some b) [] q e rest = cc (rest)
unlink-tail p w (some b) (f ∷ es) q e rest = (e, refl, refl, refl)

-- A queue and the list that it stands for.
pub record Stands (q : WorkQueue) (s : Pending) : Type 0 where
  pub entries : List Entry
  pub queue : IsQueue entries q
  pub same_works : s.works ≡ map (λ e. e.1) entries
  pub same_stop : s.is_stopped ≡ q.stop

unfoldable pub Refined : WorkQueue × Answer → Pending × Answer → Type 0
Refined (q, a) (s, b) = (a ≡ b) × Stands q s

serve-Refined :
    (p : Pointer) (w : Work) (n : Option Pointer) (es : List Entry) (q : WorkQueue) (s : Pending)
    → Avoids p es
    → Distinct es
    → q.tail ≡ last_of ((p, w) ∷ es)
    → Chain q.heap n es
    → s.is_stopped ≡ q.stop
    → Refined
        (serve p (some (record { work = w; next = n })) q)
        (record s { works = map (λ e. e.1) es }, served w)
unfolding Refined
serve-Refined p w n es q s away dis e rest stop =
    let (tail, head, heap, same) = unlink-tail p w n es q e rest in
    (
      refl,
      record {
        entries = es;
        queue = record {
          chained = rw (head, heap) (Chain-set p none q.heap n es away rest);
          distinct = dis;
          at_tail = tail;
        };
        same_works = refl;
        same_stop = stop ∙ sym same;
      },
    )

pub round-Refined :
    (es : List Entry) (q : WorkQueue) (s : Pending)
    → IsQueue es q
    → s.works ≡ map (λ e. e.1) es
    → s.is_stopped ≡ q.stop
    → Refined (worker_round q) (serve_first s.works s)
unfolding worker_round Refined
round-Refined [] q s h works stop =
    rw (worker_round, h.chained, works)
      (
        ap (λ b. if b then ended else waiting) (sym stop),
        record { entries = []; queue = h; same_works = refl; same_stop = stop },
      )
round-Refined ((p, w) ∷ es) q s h works stop =
    let (first, n, at, rest) = h.chained in
    rw (worker_round, first, at, works)
      (serve-Refined p w n es q s h.distinct.0 h.distinct.1 h.at_tail rest stop)

map-snoc :
    (w : Entry) (es : List Entry) → map (λ e. e.1) es ++ w.1 ∷ [] ≡ map (λ e. e.1) (es ++ w ∷ [])
map-snoc w [] = refl
map-snoc w (e ∷ es) = ap (λ ws. e.1 ∷ ws) (map-snoc w es)

pub push-stop : (p : Pointer) (w : Work) (q : WorkQueue) → (push p w q).stop ≡ q.stop
unfolding push
push-stop p w q = elim (Option-cases q.tail) [
  | inl e ↦ rw (push, e) refl
  | inr (t, e) ↦ rw (push, e) refl
]

pub push-Refined :
    (p : Pointer) (w : Work) (q : WorkQueue) (s : Pending)
    → q.heap p ≡ none
    → Stands q s
    → Refined (push p w q, pushed) (record s { works = s.works ++ w ∷ [] }, pushed)
unfolding Refined
push-Refined p w q s free h = (
  refl,
  record {
    entries = h.entries ++ (p, w) ∷ [];
    queue = push-IsQueue p w h.entries q free h.queue;
    same_works = ap (λ ws. ws ++ w ∷ []) h.same_works ∙ map-snoc (p, w) h.entries;
    same_stop = h.same_stop ∙ sym (push-stop p w q);
  },
)

pub stop-Refined :
    (q : WorkQueue) (s : Pending)
    → Stands q s
    → Refined (stop_queue q, stopped) (record s { is_stopped = true }, stopped)
unfolding Refined
stop-Refined q s h = (
  refl,
  record {
    entries = h.entries;
    queue = record {
      chained = h.queue.chained;
      distinct = h.queue.distinct;
      at_tail = h.queue.at_tail;
    };
    same_works = h.same_works;
    same_stop = refl;
  },
)

-- The linked queue answers any commands as a list does that is filled at its end and served from its
-- front, with no read of memory that is not allocated: the work is served in the order of the pushes,
-- each once, also what is left when the queue is stopped, and a worker ends only when the queue is
-- stopped and empty.
pub answers_refine :
    (cs : List Command) (q : WorkQueue) (s : Pending)
    → IsAllocated cs q
    → Stands q s
    → answers cs q ≡ ideal_answers cs s
unfolding IsAllocated answers ideal_answers Refined
answers_refine [] q s ok h = refl
answers_refine (pushes p w ∷ cs) q s ok h =
    let (same, h') = push-Refined p w q s ok.0 h in
    ap (λ rest. pushed ∷ rest) (answers_refine cs (push p w q) _ ok.1 h')
answers_refine (stops ∷ cs) q s ok h =
    let (same, h') = stop-Refined q s h in
    ap (λ rest. stopped ∷ rest) (answers_refine cs (stop_queue q) _ ok h')
answers_refine (rounds ∷ cs) q s ok h =
    let (same, h') = round-Refined h.entries q s h.queue h.same_works h.same_stop in
    ap (λ a. a ∷ answers cs (worker_round q).0) same
    ∙ ap (λ rest. (serve_first s.works s).1 ∷ rest) (answers_refine cs (worker_round q).0 _ ok h')
