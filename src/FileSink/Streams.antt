-- ===== src/FileSink/Streams.antt =====
-- Every stream of the file sink is closed once.
use a_curl_library.Base.{
  ℕ, ◌+◌, ◌*◌, ◌%◌, ◌^◌, ◌≡◌, ◌∙◌, refl, ap, ◌==◌, Option, none, some, List, [], ◌∷◌, ℤ, arith,
  if◌then◌else◌, Option-cases, inl, inr, Bool, true, false,
}
use a_curl_library.Request.{Text, Pointer}
use package.a_curl_library.FileSink.{
  FileEvent, opened, closed, wrote, told, File, close_file, file_init, file_write, tell, file_sink,
  file_failure, file_complete, file_destroy,
}

-- A call of the sink that comes with a stream: an attempt that could open the file, a write, or the
-- end of an attempt.
pub data SinkCall : Type 0 where
  opens : (stream : Pointer) → SinkCall
  writes : (size nmemb written : ℕ) → SinkCall
  fails : (result http_code : ℤ) → SinkCall
  completes : SinkCall

unfoldable pub call_sink : SinkCall → File → Option File
unfolding file_init file_write
call_sink (opens stream) f = some (file_init (some stream) f).0
call_sink (writes size nmemb written) f = elim (file_write size nmemb written f) [
  | none ↦ none
  | some (f', n) ↦ some f'
]
call_sink (fails result http_code) f = some (file_failure result http_code f)
call_sink completes f = some (file_complete f)

unfoldable pub call_all : List SinkCall → File → Option File
unfolding call_sink
call_all [] f = some f
call_all (c ∷ cs) f = elim (call_sink c f) [ none ↦ none | some f' ↦ call_all cs f' ]

-- how often a stream was opened and closed
abbrev pub opens_of : Pointer → List FileEvent → ℕ
opens_of h [] = 0
opens_of h (opened p ∷ es) = (if p == h then 1 else 0) + opens_of h es
opens_of h (closed p ∷ es) = opens_of h es
opens_of h (wrote p n k ∷ es) = opens_of h es
opens_of h (told p b r c ∷ es) = opens_of h es

abbrev pub closes_of : Pointer → List FileEvent → ℕ
closes_of h [] = 0
closes_of h (closed p ∷ es) = (if p == h then 1 else 0) + closes_of h es
closes_of h (opened p ∷ es) = closes_of h es
closes_of h (wrote p n k ∷ es) = closes_of h es
closes_of h (told p b r c ∷ es) = closes_of h es

-- The sink holds the stream `h`, which alone is open.
record Holds (h : Pointer) (f : File) : Type 0 where
  pub file : f.file ≡ some h
  pub balance : (p : Pointer) → opens_of p f.log ≡ closes_of p f.log + (if h == p then 1 else 0)

Holds-tell : (h : Pointer) (b : Bool) (r c : ℤ) (f : File) → Holds h f → Holds h (tell b r c f)
Holds-tell h b r c f k = elim (Option-cases f.callback) [
  | inl e ↦ rw (tell, e) k
  | inr (cb, e) ↦ rw (tell, e) (record { file = k.file; balance = k.balance })
]

Holds-init :
    (h stream : Pointer) (f : File) → Holds h f → Holds stream (file_init (some stream) f).0
unfolding file_init close_file
Holds-init h stream f k = record { file = refl; balance = λ p. ground (arith, k.file, k.balance p) }

file_write_open :
    (h : Pointer) (size nmemb written : ℕ) (f : File)
    → f.file ≡ some h
    → file_write size nmemb written f
      ≡ some (record f { log = wrote h size nmemb ∷ f.log }, (written * size) % 2 ^ 64)
unfolding file_write
file_write_open h size nmemb written f e =
    ap
      (λ o. elim o as (λ _. Option (File × ℕ)) [
        | none ↦ none
        | some s ↦ some (record f { log = wrote s size nmemb ∷ f.log }, (written * size) % 2 ^ 64)
      ])
      e

Holds-call :
    (h : Pointer) (c : SinkCall) (f : File)
    → Holds h f
    → (h' : Pointer) × (f' : File) × (call_sink c f ≡ some f') × Holds h' f'
unfolding call_sink
Holds-call h (opens stream) f k =
    (stream, (file_init (some stream) f).0, refl, Holds-init h stream f k)
Holds-call h (writes size nmemb written) f k = (
  h,
  record f { log = wrote h size nmemb ∷ f.log },
  ap (λ o. elim o as (λ _. Option File) [ none ↦ none | some (f', n) ↦ some f' ])
      (file_write_open h size nmemb written f k.file),
  record { file = k.file; balance = k.balance },
)
Holds-call h (fails result http_code) f k =
    (h, file_failure result http_code f, refl, Holds-tell h false result http_code f k)
Holds-call h completes f k = (h, file_complete f, refl, Holds-tell h true _ _ f k)

Holds-call_all :
    (h : Pointer) (cs : List SinkCall) (f : File)
    → Holds h f
    → (h' : Pointer) × (f' : File) × (call_all cs f ≡ some f') × Holds h' f'
unfolding call_all
Holds-call_all h [] f k = (h, f, refl, k)
Holds-call_all h (c ∷ cs) f k =
    let (h₁, f₁, e, k₁) = Holds-call h c f k in
    let (h₂, f₂, e', k₂) = Holds-call_all h₁ cs f₁ k₁ in
    (
      h₂,
      f₂,
      ap (λ o. elim o as (λ _. Option File) [ none ↦ none | some x ↦ call_all cs x ]) e ∙ e',
      k₂,
    )

Holds-file_destroy :
    (h p : Pointer) (f : File)
    → Holds h f
    → opens_of p (file_destroy f).log ≡ closes_of p (file_destroy f).log
unfolding file_destroy close_file
Holds-file_destroy h p f k = ground (arith, k.file, k.balance p)

Holds-file_sink :
    (h : Pointer) (filename : Text) (callback : Option Pointer)
    → Holds h (file_init (some h) (file_sink filename callback)).0
unfolding file_init close_file
Holds-file_sink h filename callback = record { file = refl; balance = λ p. omega arith }

-- A sink whose file could be opened, and that goes through any writes, ends and further attempts
-- whose file could be opened, never writes to a stream that is NULL; and when it is destroyed then,
-- each stream has been closed as often as it was opened.
pub streams_closed :
    (filename : Text) (callback : Option Pointer) (h : Pointer) (cs : List SinkCall)
    → (f : File) × (call_all (opens h ∷ cs) (file_sink filename callback) ≡ some f)
      × ((p : Pointer) → opens_of p (file_destroy f).log ≡ closes_of p (file_destroy f).log)
unfolding call_all call_sink
streams_closed filename callback h cs =
    let f₀ = (file_init (some h) (file_sink filename callback)).0 in
    let (h', f, e, k) = Holds-call_all h cs f₀ (Holds-file_sink h filename callback) in
    (f, e, λ p. Holds-file_destroy h' p f k)
