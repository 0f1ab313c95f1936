-- ===== src/Proto/Frame/Filling.antt =====
-- Filling a buffer from a stream, whatever its pieces (crates/iem-engine-proto/src/frame.rs,
-- `read_head`: a short read and an interruption are tried again).
use iemmixer.Base.{
  ℕ, ◌-◌, ◌≤◌, ◌<◌, ◌≡◌, refl, sym, ap, ◌∙◌, inl, inr, false, List, [], ◌∷◌, ◌++◌, arith,
  Bool-cases, leb, ◌==◌, length, length-append, take, drop, Result, ok,
}
use iemmixer.Proto.Frame.{Event, piece, interrupted, failed, FrameError, fill, left_over}

-- The bytes of a stream that does not fail, and that ends only after its last event.
abbrev pub bytes : List Event → List ℕ
bytes [] = []
bytes (piece bs ∷ events) = bs ++ bytes events
bytes (interrupted ∷ events) = bytes events
bytes (failed ∷ events) = bytes events

abbrev pub Healthy : List Event → Type 0
Healthy [] = Unit
Healthy (piece bs ∷ events) = (0 < length bs) × Healthy events
Healthy (interrupted ∷ events) = Healthy events
Healthy (failed ∷ events) = ⊥

-- A buffer that was filled: `xs` read, `rest` still in the stream.
pub record Filled (r : Result FrameError (List ℕ) × List Event) (xs rest : List ℕ) : Type 0 where
  pub result : r.0 ≡ ok xs
  pub stream : bytes r.1 ≡ rest
  pub healthy : Healthy r.1

pub append_assoc : (xs ys zs : List ℕ) → (xs ++ ys) ++ zs ≡ xs ++ (ys ++ zs)
append_assoc [] ys zs = refl
append_assoc (x ∷ xs) ys zs = ap (λ ws. x ∷ ws) (append_assoc xs ys zs)

pub append_nil : (xs : List ℕ) → xs ++ [] ≡ xs
append_nil [] = refl
append_nil (x ∷ xs) = ap (λ ys. x ∷ ys) (append_nil xs)

bytes-left_over :
    (bs : List ℕ) (events : List Event) → bytes (left_over bs events) ≡ bs ++ bytes events
bytes-left_over [] events = refl
bytes-left_over (b ∷ bs) events = refl

Healthy-left_over :
    (bs : List ℕ) (events : List Event) → Healthy events → Healthy (left_over bs events)
Healthy-left_over [] events h = h
Healthy-left_over (b ∷ bs) events h = (omega arith, h)

cons_injective : (x y : ℕ) (xs ys : List ℕ) → x ∷ xs ≡ y ∷ ys → (x ≡ y) × (xs ≡ ys)
cons_injective x y xs ys h = (cc, cc)

-- Two ways to cut the same bytes: the first cut is not behind the second.
cut_before :
    (xs rest bs zs : List ℕ)
    → length xs ≤ length bs
    → bs ++ zs ≡ xs ++ rest
    → (take (length xs) bs ≡ xs) × (drop (length xs) bs ++ zs ≡ rest)
cut_before [] rest bs zs h e = (refl, e)
cut_before (x ∷ xs) rest [] zs h e = absurd (omega (arith, h))
cut_before (x ∷ xs) rest (b ∷ bs) zs h e =
    let (p, q) = cons_injective b x (bs ++ zs) (xs ++ rest) e in
    let (t, d) = cut_before xs rest bs zs (omega (arith, h)) q in ((λ i. p i ∷ t i), d)

pub cut_behind :
    (xs rest bs zs : List ℕ)
    → length bs ≤ length xs
    → bs ++ zs ≡ xs ++ rest
    → (ys : List ℕ) × (xs ≡ bs ++ ys) × (zs ≡ ys ++ rest)
cut_behind xs rest [] zs h e = (xs, refl, e)
cut_behind [] rest (b ∷ bs) zs h e = absurd (omega (arith, h))
cut_behind (x ∷ xs) rest (b ∷ bs) zs h e =
    let (p, q) = cons_injective b x (bs ++ zs) (xs ++ rest) e in
    let (ys, t, d) = cut_behind xs rest bs zs (omega (arith, h)) q in (ys, (λ i. sym p i ∷ t i), d)

-- Nothing is left to read.
zero-Filled :
    (got : List ℕ) (events : List Event) (xs rest : List ℕ)
    → Healthy events
    → bytes events ≡ xs ++ rest
    → length xs ≡ 0
    → Filled (ok got, events) (got ++ xs) rest
zero-Filled got events [] rest h e n = record {
  result = ap ok (sym (append_nil got));
  stream = e;
  healthy = h;
}
zero-Filled got events (x ∷ xs) rest h e n = absurd (omega (arith, n))

-- A buffer is filled whenever the stream has the bytes, whatever pieces they come in and however many
-- interruptions there are.
pub fill-Filled :
    (eof : List ℕ → FrameError) (need : ℕ) (got : List ℕ) (events : List Event) (xs rest : List ℕ)
    → Healthy events
    → bytes events ≡ xs ++ rest
    → length xs ≡ need
    → Filled (fill eof need got events) (got ++ xs) rest
unfolding fill
fill-Filled eof need got [] [] rest h e n = rw (sym n, fill) (zero-Filled got [] [] rest h e refl)
fill-Filled eof need got [] (x ∷ xs) rest h e n = absurd cc
fill-Filled eof need got (interrupted ∷ events) xs rest h e n = elim (Bool-cases (need == 0)) [
  | inl b ↦ rw (b, fill) (zero-Filled got (interrupted ∷ events) xs rest h e (ground (arith, n, b)))
  | inr b ↦ rw (b, fill) (fill-Filled eof need got events xs rest h e n)
]
fill-Filled eof need got (failed ∷ events) xs rest h e n = absurd h
fill-Filled eof need got (piece bs ∷ events) xs rest h e n = elim (Bool-cases (need == 0)) [
  | inl b ↦ rw (b, fill) (zero-Filled got (piece bs ∷ events) xs rest h e (ground (arith, n, b)))
  | inr b ↦
      let some_bytes : (length bs == 0) ≡ false = ground (arith, h.0) in
      elim (Bool-cases (leb need (length bs))) [
        | inl l ↦
            let (t, d) = cut_before xs rest bs (bytes events) (ground (arith, n, l)) e in
            rw (b, some_bytes, l, fill)
              (record {
                result = ap (λ k. ok (got ++ take k bs)) (sym n) ∙ ap (λ ys. ok (got ++ ys)) t;
                stream =
                    bytes-left_over (drop need bs) events
                    ∙ ap (λ k. drop k bs ++ bytes events) (sym n)
                    ∙ d;
                healthy = Healthy-left_over (drop need bs) events h.1;
              })
        | inr l ↦
            let (ys, t, d) = cut_behind xs rest bs (bytes events) (ground (arith, n, l)) e in
            let f =
              fill-Filled eof (need - length bs) (got ++ bs) events ys rest h.1 d
                (omega (arith, n, ap length t, length-append bs ys)) in
            rw (b, some_bytes, l, fill)
              (record {
                result = f.result ∙ ap ok (append_assoc got bs ys ∙ ap (λ zs. got ++ zs) (sym t));
                stream = f.stream;
                healthy = f.healthy;
              })
      ]
]
