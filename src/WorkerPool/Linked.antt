-- ===== src/WorkerPool/Linked.antt =====
-- The items of a linked queue.
use a_curl_library.Base.{◌≡◌, ◌≢◌, refl, sym, Option, none, some, List, [], ◌∷◌, ◌++◌, arith, All}
use a_curl_library.Request.{Pointer}
use a_curl_library.WorkerPool.{Work, WorkItem, Heap, set_item, with_next}

abbrev pub Entry : Type 0
Entry = Pointer × Work

-- From `first` the items of these entries follow each other, and the last has no next one.
abbrev pub Chain : Heap → Option Pointer → List Entry → Type 0
Chain heap first [] = first ≡ none
Chain heap first ((p, w) ∷ es) =
    (first ≡ some p)
    × (n : Option Pointer) × (heap p ≡ some (record { work = w; next = n }))
    × Chain heap n es

-- No item stands at `p`.
abbrev pub Avoids : Pointer → List Entry → Type 0
Avoids p es = All (λ e. e.0 ≢ p) es

abbrev pub Distinct : List Entry → Type 0
Distinct [] = Unit
Distinct ((p, w) ∷ es) = Avoids p es × Distinct es

-- the address of the last item
abbrev pub last_of : List Entry → Option Pointer
last_of [] = none
last_of ((p, w) ∷ []) = some p
last_of (e ∷ f ∷ es) = last_of (f ∷ es)

-- A write elsewhere keeps a chain.
pub Chain-set :
    (p : Pointer) (item : Option WorkItem) (heap : Heap) (first : Option Pointer) (es : List Entry)
    → Avoids p es
    → Chain heap first es
    → Chain (set_item p item heap) first es
Chain-set p item heap first [] ok h = h
Chain-set p item heap first ((a, w) ∷ es) ok (e, n, at, rest) =
    (e, n, ground (arith, ok.0, at), Chain-set p item heap n es ok.1 rest)

-- Free memory is not in a chain.
pub Chain-Avoids :
    (p : Pointer) (heap : Heap) (first : Option Pointer) (es : List Entry)
    → heap p ≡ none
    → Chain heap first es
    → Avoids p es
Chain-Avoids p heap first [] free h = tt
Chain-Avoids p heap first ((a, w) ∷ es) free (e, n, at, rest) =
    (λ same. cc (same, free, at), Chain-Avoids p heap n es free rest)

pub Avoids-snoc :
    (p : Pointer) (e : Entry) (es : List Entry) → Avoids p es → e.0 ≢ p → Avoids p (es ++ e ∷ [])
Avoids-snoc p e [] ok ne = (ne, tt)
Avoids-snoc p e (f ∷ es) ok ne = (ok.0, Avoids-snoc p e es ok.1 ne)

pub Distinct-snoc :
    (p : Pointer) (w : Work) (es : List Entry)
    → Avoids p es
    → Distinct es
    → Distinct (es ++ (p, w) ∷ [])
Distinct-snoc p w [] ok h = (tt, tt)
Distinct-snoc p w ((a, v) ∷ es) ok h =
    (Avoids-snoc a (p, w) es h.0 (λ same. ok.0 (sym same)), Distinct-snoc p w es ok.1 h.1)

-- the last item of a chain that is not empty
pub last-Avoids :
    (a t : Pointer) (f : Entry) (es : List Entry)
    → Avoids a (f ∷ es)
    → last_of (f ∷ es) ≡ some t
    → t ≢ a
last-Avoids a t f [] ok e = λ same. ok.0 (ground (arith, e, same))
last-Avoids a t f (g ∷ es) ok e = last-Avoids a t g es ok.1 e

-- Linking a new item behind the last one.
pub Chain-snoc :
    (p : Pointer) (w : Work) (t : Pointer) (heap : Heap) (first : Option Pointer) (e : Entry)
    (es : List Entry)
    → Distinct (e ∷ es)
    → Avoids p (e ∷ es)
    → last_of (e ∷ es) ≡ some t
    → heap p ≡ some (record { work = w; next = none })
    → Chain heap first (e ∷ es)
    → Chain (set_item t (with_next (some p) (heap t)) heap) first (e ∷ es ++ (p, w) ∷ [])
Chain-snoc p w t heap first (a, v) [] dis ok last new (h, n, at, rest) =
    (h, some p, ground (arith, last, at), (refl, none, ground (arith, last, new, ok.0), refl))
Chain-snoc p w t heap first (a, v) (f ∷ es) dis ok last new (h, n, at, rest) = (
  h,
  n,
  ground (arith, last-Avoids a t f es dis.0 last, at),
  Chain-snoc p w t heap n f es dis.1 ok.1 last new rest,
)

pub last-some : (e : Entry) (es : List Entry) → (t : Pointer) × (last_of (e ∷ es) ≡ some t)
last-some (p, w) [] = (p, refl)
last-some e (f ∷ es) = last-some f es

pub last-snoc : (p : Pointer) (w : Work) (es : List Entry) → last_of (es ++ (p, w) ∷ []) ≡ some p
last-snoc p w [] = refl
last-snoc p w (e ∷ []) = refl
last-snoc p w (e ∷ f ∷ es) = last-snoc p w (f ∷ es)
