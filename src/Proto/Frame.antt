-- ===== src/Proto/Frame.antt =====
-- The frames of the control pipe (crates/iem-engine-proto/src/frame.rs). A body is the bytes that
-- serde_json makes of a message. A stream is what the reader's calls return in turn: a piece, an
-- interruption or a failure, and an end of file after the last one.
use iemmixer.Base.{
  ℕ, suc, ◌+◌, ◌-◌, ◌*◌, ◌/◌, ◌%◌, ◌^◌, Bool, true, false, ◌&&◌, ◌||◌, List, [], ◌∷◌, ◌++◌,
  if◌then◌else◌, leb, ltb, ◌==◌, length, take, drop, Result, ok, err,
}
pub mod Filling
pub mod Reading

abbrev pub max_frame : ℕ
max_frame = 1048576

pub data IoError : Type 0 where
  unexpected_eof other_error : IoError

pub data FrameError : Type 0 where
  io : IoError → FrameError
  too_large : ℕ → FrameError
  closed : FrameError

pub data Event : Type 0 where
  piece : List ℕ → Event
  interrupted : Event
  failed : Event

-- `u32::to_le_bytes` and `u32::from_le_bytes`.
unfoldable pub to_le_bytes : ℕ → List ℕ
to_le_bytes n = n % 256 ∷ n / 256 % 256 ∷ n / 65536 % 256 ∷ n / 16777216 % 256 ∷ []

abbrev pub from_le_bytes : List ℕ → ℕ
from_le_bytes [] = 0
from_le_bytes (b ∷ bs) = b + 256 * from_le_bytes bs

-- What `write_frame` writes of a body.
unfoldable pub write_frame : List ℕ → Result FrameError (List ℕ)
unfolding to_le_bytes
write_frame body =
    if ltb (length body) (2 ^ 32) && leb (length body) max_frame
    then ok (to_le_bytes (length body) ++ body)
    else err (too_large (length body))

-- What a piece leaves for the next read.
abbrev pub left_over : List ℕ → List Event → List Event
left_over [] events = events
left_over (b ∷ bs) events = piece (b ∷ bs) ∷ events

-- The loop of `read_head`, and the library's `read_exact`, which differ in their error at an end of
-- file: until `need` more bytes are there, an interruption is tried again.
unfoldable pub fill :
    (List ℕ → FrameError) → ℕ → List ℕ → List Event → Result FrameError (List ℕ) × List Event
fill eof need got [] = if need == 0 then (ok got, []) else (err (eof got), [])
fill eof need got (piece bs ∷ events) =
    let rest = fill eof (need - length bs) (got ++ bs) events in
    if need == 0
    then (ok got, piece bs ∷ events)
    else if length bs == 0
    then (err (eof got), events)
    else if leb need (length bs)
    then (ok (got ++ take need bs), left_over (drop need bs) events)
    else rest
fill eof need got (interrupted ∷ events) =
    let rest = fill eof need got events in
    if need == 0 then (ok got, interrupted ∷ events) else rest
fill eof need got (failed ∷ events) =
    if need == 0 then (ok got, failed ∷ events) else (err (io other_error), events)

-- An end of file before the first byte of a header, or inside it.
abbrev pub head_eof : List ℕ → FrameError
head_eof [] = closed
head_eof (b ∷ bs) = io unexpected_eof

unfoldable pub read_head : List Event → Result FrameError (List ℕ) × List Event
unfolding fill
read_head events = fill head_eof 4 [] events

unfoldable pub read_exact : ℕ → List Event → Result FrameError (List ℕ) × List Event
unfolding fill
read_exact n events = fill (λ got. io unexpected_eof) n [] events

-- The body once the header is read.
abbrev pub read_body : List ℕ → List Event → Result FrameError (List ℕ) × List Event
read_body head events =
    let len = from_le_bytes head in
    if ltb max_frame len then (err (too_large len), events) else read_exact len events

unfoldable pub read_frame : List Event → Result FrameError (List ℕ) × List Event
unfolding read_head read_exact
read_frame events =
    let (r, rest) = read_head events in
    elim r [ ok head ↦ read_body head rest | err e ↦ (err e, rest) ]
