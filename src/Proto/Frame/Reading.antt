-- ===== src/Proto/Frame/Reading.antt =====
-- Reading frames from a stream, whatever its pieces (crates/iem-engine-proto/src/frame.rs,
-- `read_frame` against `write_frame`).
use iemmixer.Base.{
  ℕ, zero, suc, true, if◌then◌else◌, All, Result, ◌-◌, ◌^◌, ◌≤◌, ◌<◌, ◌≡◌, refl, sym, ap, subst,
  ◌∙◌, inl, inr, false, ◌&&◌, List, [], ◌∷◌, ◌++◌, arith, Bool-cases, leb, ltb, lt→ltb, ltb→lt,
  ◌==◌, length, length-append, ok, err, ok_injective,
}
use iemmixer.Proto.Frame.{
  max_frame, unexpected_eof, Event, piece, interrupted, failed, FrameError, io, too_large, closed,
  to_le_bytes, from_le_bytes, write_frame, fill, head_eof, read_head, read_exact, read_body,
  read_frame,
}
use iemmixer.Proto.Frame.Filling.{
  bytes, Healthy, Filled, fill-Filled, cut_behind, append_assoc, append_nil,
}

nonzero : (n : ℕ) → 0 < n → (n == 0) ≡ false
nonzero n h = ground (arith, h)

ltb_of_le : (m n : ℕ) → n ≤ m → ltb m n ≡ false
ltb_of_le m n h = ground (arith, h)

le→leb : (m n : ℕ) → m ≤ n → leb m n ≡ true
le→leb m n h = ground (arith, h)

leb_of_lt : (m n : ℕ) → n < m → leb m n ≡ false
leb_of_lt m n h = ground (arith, h)

from_le_bytes-to_le_bytes : (n : ℕ) → n < 2 ^ 32 → from_le_bytes (to_le_bytes n) ≡ n
unfolding to_le_bytes
from_le_bytes-to_le_bytes n h = omega (arith, h)

length-to_le_bytes : (n : ℕ) → length (to_le_bytes n) ≡ 4
unfolding to_le_bytes
length-to_le_bytes n = refl

module _ (events : List Event) (n : ℕ) (rest : List ℕ) (h : Healthy events)
    (e : bytes events ≡ to_le_bytes n ++ rest) where
  -- The header of a frame.
  head-Filled : Filled (read_head events) (to_le_bytes n) rest
  unfolding read_head to_le_bytes
  head-Filled = fill-Filled head_eof 4 [] events (to_le_bytes n) rest h e refl

  read_frame_body : n < 2 ^ 32 → read_frame events ≡ read_body (to_le_bytes n) (read_head events).1
  unfolding read_frame
  read_frame_body b = rw (head-Filled.result, read_frame) refl

  -- In a stream that does not fail, a frame that announces more than a frame may hold is refused with
  -- its body unread.
  pub read_frame_oversize :
      n < 2 ^ 32
      → max_frame < n
      → ((read_frame events).0 ≡ err (too_large n)) × (bytes (read_frame events).1 ≡ rest)
  read_frame_oversize b w =
      let q : read_frame events ≡ (err (too_large n), (read_head events).1) =
        read_frame_body b ∙ rw (from_le_bytes-to_le_bytes n b, lt→ltb max_frame n w) refl in
      (ap (λ r. r.0) q, ap (λ r. bytes r.1) q ∙ head-Filled.stream)

write_frame_ok :
    (body : List ℕ)
    → length body ≤ max_frame
    → write_frame body ≡ ok (to_le_bytes (length body) ++ body)
unfolding write_frame
write_frame_ok body h =
    rw
      (
        lt→ltb (length body) (2 ^ 32) (omega (arith, h)),
        le→leb (length body) max_frame h,
        write_frame,
      )
      refl

write_frame_cases :
    (body wire : List ℕ)
    → write_frame body ≡ ok wire
    → (length body < 2 ^ 32)
      × (length body ≤ max_frame)
      × (wire ≡ to_le_bytes (length body) ++ body)
unfolding write_frame
write_frame_cases body wire h =
    elim (Bool-cases (ltb (length body) (2 ^ 32) && leb (length body) max_frame)) [
      | inl b ↦
          (ground (arith, b), ground (arith, b), sym (ok_injective _ _ (rw (b, write_frame) at h)))
      | inr b ↦ absurd (cc (rw (b, write_frame) at h))
    ]

-- Whatever pieces a stream that does not fail comes in, and however often it is interrupted, the
-- frame that was written is read back and the stream is left right after it.
pub read_frame-write_frame :
    (body wire rest : List ℕ) (events : List Event)
    → Healthy events
    → write_frame body ≡ ok wire
    → bytes events ≡ wire ++ rest
    → Filled (read_frame events) body rest
unfolding read_exact
read_frame-write_frame body wire rest events h w e =
    let (small, fits, made) = write_frame_cases body wire w in
    let e' : bytes events ≡ to_le_bytes (length body) ++ (body ++ rest) =
      e ∙ ap (λ ws. ws ++ rest) made ∙ append_assoc (to_le_bytes (length body)) body rest in
    let head = head-Filled events (length body) (body ++ rest) h e' in
    let q : read_frame events ≡ read_exact (length body) (read_head events).1 =
      read_frame_body events (length body) (body ++ rest) h e' small
      ∙ rw (from_le_bytes-to_le_bytes (length body) small, ltb_of_le max_frame (length body) fits)
          refl in
    subst (λ r. Filled r body rest) (sym q)
      (fill-Filled (λ got. io unexpected_eof) (length body) [] (read_head events).1 body rest
        head.healthy head.stream refl)

-- A stream that ends too early.
fill_short :
    (eof : List ℕ → FrameError) (need : ℕ) (got : List ℕ) (events : List Event)
    → Healthy events
    → length (bytes events) < need
    → (fill eof need got events).0 ≡ err (eof (got ++ bytes events))
unfolding fill
fill_short eof need got [] h l =
    rw (nonzero need (omega (arith, l)), fill) (ap (λ xs. err (eof xs)) (sym (append_nil got)))
fill_short eof need got (interrupted ∷ events) h l =
    rw (nonzero need (omega (arith, l)), fill) (fill_short eof need got events h l)
fill_short eof need got (failed ∷ events) h l = absurd h
fill_short eof need got (piece bs ∷ events) h l =
    let total = length-append bs (bytes events) in
    rw
      (
        nonzero need (omega (arith, l)),
        nonzero (length bs) h.0,
        leb_of_lt need (length bs) (omega (arith, l, total)),
        fill,
      )
      (fill_short eof (need - length bs) (got ++ bs) events h.1 (omega (arith, l, total))
        ∙ ap (λ xs. err (eof xs)) (append_assoc got bs (bytes events)))

head_eof_lem :
    (got : List ℕ) → head_eof got ≡ (if length got == 0 then closed else io unexpected_eof)
head_eof_lem [] = refl
head_eof_lem (b ∷ got) = rw (nonzero (suc (length got)) (omega arith)) refl

-- A stream that does not fail and ends before the frame is whole is read as closed where it brings no
-- byte of the frame at all, and otherwise as an unexpected end of the file.
pub read_frame_cut :
    (body wire cut : List ℕ) (events : List Event)
    → Healthy events
    → write_frame body ≡ ok wire
    → wire ≡ bytes events ++ cut
    → 0 < length cut
    → (read_frame events).0 ≡ err (if length (bytes events) == 0 then closed else io unexpected_eof)
unfolding read_frame read_head read_exact to_le_bytes
read_frame_cut body wire cut events h w e l =
    let (small, fits, made) = write_frame_cases body wire w in
    elim (Bool-cases (ltb (length (bytes events)) 4)) [
      | inl b ↦
          let q = fill_short head_eof 4 [] events h (ltb→lt _ 4 b) in
          rw (q, read_frame) (ap err (head_eof_lem (bytes events)))
      | inr b ↦
          let (more, s, d) =
            cut_behind (bytes events) cut (to_le_bytes (length body)) body
              (ground (arith, b, length-to_le_bytes (length body))) (sym made ∙ e) in
          let head = head-Filled events (length body) more h s in
          let q : read_frame events ≡ read_exact (length body) (read_head events).1 =
            read_frame_body events (length body) more h s small
            ∙ rw
                (
                  from_le_bytes-to_le_bytes (length body) small,
                  ltb_of_le max_frame (length body) fits,
                )
                refl in
          ap (λ r. r.0) q
          ∙ fill_short (λ got. io unexpected_eof) (length body) [] (read_head events).1 head.healthy
              (omega (arith, ap length d, length-append more cut, ap length head.stream, l))
          ∙ ap err (
              let more_than : (length (bytes events) == 0) ≡ false = ground (arith, b) in
              rw more_than refl)
    ]

-- The bytes of frames one after another, and the reading of as many frames as the list has.
abbrev pub wires : List (List ℕ) → List ℕ
wires [] = []
wires (body ∷ bodies) = to_le_bytes (length body) ++ (body ++ wires bodies)

abbrev pub read_frames : ℕ → List Event → List (List ℕ) × Result FrameError (List ℕ)
read_frames zero events = ([], (read_frame events).0)
read_frames (suc n) events =
    let (r, rest) = read_frame events in
    let (bodies, last) = read_frames n rest in
    elim r [ ok body ↦ (body ∷ bodies, last) | err e ↦ ([], err e) ]

-- Frames written one after another into a stream that does not fail are read back in their order,
-- whatever the pieces, and then the stream is closed.
pub read_frames_all :
    (bodies : List (List ℕ)) (events : List Event)
    → All (λ body. length body ≤ max_frame) bodies
    → Healthy events
    → bytes events ≡ wires bodies
    → read_frames (length bodies) events ≡ (bodies, err closed)
unfolding read_frame read_head
read_frames_all [] events fit h e =
    let short = fill_short head_eof 4 [] events h (omega (arith, ap length e)) in
    rw (short, read_frame) (ap (λ xs. ([], err (head_eof xs))) e)
read_frames_all (body ∷ bodies) events fit h e =
    let wire = to_le_bytes (length body) ++ body in
    let f =
      read_frame-write_frame body wire (wires bodies) events h (write_frame_ok body fit.0)
        (e ∙ sym (append_assoc (to_le_bytes (length body)) body (wires bodies))) in
    rw (f.result, read_frame, read_frames)
      (ap (λ r. (body ∷ r.0, r.1))
        (read_frames_all bodies (read_frame events).1 fit.1 f.healthy f.stream))
