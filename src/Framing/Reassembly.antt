-- ===== src/Framing/Reassembly.antt =====
-- Frames of framing.ts are put together again, however the stream was cut into chunks.
use bare_network_inspect.Base.{
  ℕ, zero, suc, ◌+◌, ◌*◌, ◌/◌, ◌%◌, ◌^◌, ◌≤◌, ◌<◌, ◌≡◌, refl, sym, ap, inl, inr, Option, none, some,
  List, [], ◌∷◌, ◌++◌, append-nil, append_assoc, arith, Option-cases, length, take, All,
  length-append, length-drop, take-append_length, drop-append_length, drop-append_le, get_or-append,
  take-append_le,
}
use bare_network_inspect.Framing.{
  encode_frame, set_uint32, get_uint32, next_frame, frames, StreamFramer, fresh, push, push_all,
}

pub next_frame_shorter : (b m r : List ℕ) → next_frame b ≡ some (m, r) → length r < length b
unfolding next_frame
next_frame_shorter b m r e = ground (arith, length-drop (4 + get_uint32 b) b)

-- Bytes that come later do not change a frame that is complete.
next_frame-append :
    (a b m r : List ℕ) → next_frame a ≡ some (m, r) → next_frame (a ++ b) ≡ some (m, r ++ b)
unfolding next_frame get_uint32
next_frame-append a b m r e = ground (
  arith,
  length-append a b,
  get_or-append a b 0 0,
  get_or-append a b 1 0,
  get_or-append a b 2 0,
  get_or-append a b 3 0,
  take-append_le (4 + get_uint32 a) a b,
  drop-append_le (4 + get_uint32 a) a b,
)

abbrev Frames : Type 0
Frames = Option (List (List ℕ) × List ℕ)

-- Messages in front of what the loop returns.
abbrev prepend : List (List ℕ) → Frames → Frames
prepend ms none = none
prepend ms (some (ns, left)) = some (ms ++ ns, left)

-- The loop ends: a round takes at least one byte.
pub frames_total :
    (f : ℕ) (b : List ℕ)
    → length b < f
    → (ms : List (List ℕ)) × (left : List ℕ) × (frames f b ≡ some (ms, left))
unfolding frames
frames_total zero b h = absurd (omega arith)
frames_total (suc f) b h = elim (Option-cases (next_frame b)) [
  | inl e ↦ ([], b, ground arith)
  | inr ((m, r), e) ↦
      let (ms, left, k) = frames_total f r (omega (arith, next_frame_shorter b m r e)) in
      (m ∷ ms, left, ground arith)
]

-- More fuel than is needed changes nothing.
frames_fuel : (f g : ℕ) (b : List ℕ) → length b < f → length b < g → frames f b ≡ frames g b
unfolding frames
frames_fuel zero g b h k = absurd (omega arith)
frames_fuel (suc f) zero b h k = absurd (omega arith)
frames_fuel (suc f) (suc g) b h k = elim (Option-cases (next_frame b)) [
  | inl e ↦ ground arith
  | inr ((m, r), e) ↦
      let s = next_frame_shorter b m r e in
      ground (arith, frames_fuel f g r (omega arith) (omega arith))
]

left_shorter :
    (f : ℕ) (b left : List ℕ) (ms : List (List ℕ))
    → frames f b ≡ some (ms, left)
    → length left ≤ length b
unfolding frames
left_shorter zero b left ms e = cc
left_shorter (suc f) b left ms e = elim (Option-cases (next_frame b)) [
  | inl n ↦ ground arith
  | inr ((m, r), n) ↦ elim (Option-cases (frames f r)) [
    | inl k ↦ ground arith
    | inr ((ns, l), k) ↦ ground (arith, next_frame_shorter b m r n, left_shorter f r l ns k)
  ]
]

prepend-nil : (x : Frames) → prepend [] x ≡ x
prepend-nil none = refl
prepend-nil (some (ns, l)) = refl

-- To cut a buffer in two and read the parts in turn is to read the whole.
frames-append :
    (f g : ℕ) (a b left : List ℕ) (ms : List (List ℕ))
    → frames f a ≡ some (ms, left)
    → length (a ++ b) < g
    → frames g (a ++ b) ≡ prepend ms (frames g (left ++ b))
unfolding frames
frames-append zero g a b left ms e h = cc
frames-append (suc f) zero a b left ms e h = absurd (omega arith)
frames-append (suc f) (suc g) a b left ms e h = elim (Option-cases (next_frame a)) [
  | inl n ↦ ground (arith, prepend-nil (frames (suc g) (a ++ b)))
  | inr ((m, r), n) ↦ elim (Option-cases (frames f r)) [
    | inl k ↦ ground arith
    | inr ((ns, l), k) ↦
        let s = next_frame_shorter a m r n in
        let t = left_shorter f r l ns k in
        let u = length-append a b in
        let v = length-append r b in
        let w = length-append l b in
        ground (
          arith,
          next_frame-append a b m r n,
          frames-append f g r b l ns k (omega arith),
          frames_fuel g (suc g) (l ++ b) (omega arith) (omega arith),
        )
  ]
]

push-frames :
    (f : StreamFramer) (chunk left : List ℕ) (ms : List (List ℕ)) (g : ℕ)
    → frames g (f.buffer ++ chunk) ≡ some (ms, left)
    → length (f.buffer ++ chunk) < g
    → push f chunk ≡ some (record { buffer = left; received = f.received ++ ms })
unfolding push
push-frames f chunk left ms g e h =
    let whole =
      frames_fuel (length (f.buffer ++ chunk) + 1) g (f.buffer ++ chunk) (omega arith) h in
    ground arith

unfoldable pub flatten : List (List ℕ) → List ℕ
flatten [] = []
flatten (c ∷ cs) = c ++ flatten cs

-- However a stream is cut into chunks, pushing the chunks leaves the framer as reading the whole
-- stream at once does.
frames-none : (g : ℕ) (b : List ℕ) → next_frame b ≡ none → length b < g → frames g b ≡ some ([], b)
unfolding frames
frames-none zero b n h = absurd (omega arith)
frames-none (suc g) b n h = ground arith

-- What the loop leaves in the buffer is no complete frame.
left_incomplete :
    (f : ℕ) (b left : List ℕ) (ms : List (List ℕ))
    → frames f b ≡ some (ms, left)
    → next_frame left ≡ none
unfolding frames
left_incomplete zero b left ms e = cc
left_incomplete (suc f) b left ms e = elim (Option-cases (next_frame b)) [
  | inl n ↦ ground arith
  | inr ((m, r), n) ↦ elim (Option-cases (frames f r)) [
    | inl k ↦ ground arith
    | inr ((ns, l), k) ↦ ground (arith, left_incomplete f r l ns k)
  ]
]

push_all-frames :
    (cs : List (List ℕ)) (f : StreamFramer) (ms : List (List ℕ)) (left : List ℕ) (g : ℕ)
    → frames g (f.buffer ++ flatten cs) ≡ some (ms, left)
    → length (f.buffer ++ flatten cs) < g
    → next_frame f.buffer ≡ none
    → push_all f cs ≡ some (record { buffer = left; received = f.received ++ ms })
unfolding push_all flatten
push_all-frames [] f ms left g e h n = ground (
  arith,
  append-nil f.buffer,
  append-nil f.received,
  frames-none g f.buffer n (rw append-nil at h),
)
push_all-frames (c ∷ cs) f ms left g e h n =
    let (ns, l, k) =
      frames_total g (f.buffer ++ c)
        (omega (arith, length-append (f.buffer ++ c) (flatten cs), shorter)) in
    let f' : StreamFramer = record { buffer = l; received = f.received ++ ns } in
    let step =
      push-frames f c l ns g k
        (omega (arith, length-append (f.buffer ++ c) (flatten cs), shorter)) in
    let whole = frames-append g g (f.buffer ++ c) (flatten cs) l ns k (rw shorter at h) in
    let t = left_shorter g (f.buffer ++ c) l ns k in
    let u = length-append (f.buffer ++ c) (flatten cs) in
    let v = length-append l (flatten cs) in
    elim (Option-cases (frames g (l ++ flatten cs))) [
      | inl z ↦ ground (arith, append_assoc f.buffer c (flatten cs))
      | inr ((ms', left'), z) ↦ ground (
        arith,
        append_assoc f.buffer c (flatten cs),
        append_assoc f.received ns ms',
        push_all-frames cs f' ms' left' g z (omega (arith, shorter))
            (left_incomplete g (f.buffer ++ c) l ns k),
      )
    ]
  where
    shorter : length (f.buffer ++ (c ++ flatten cs)) ≡ length ((f.buffer ++ c) ++ flatten cs)
    shorter = ap length (sym (append_assoc f.buffer c (flatten cs)))

-- One complete frame at the front of a buffer.
next_frame-encode :
    (m rest : List ℕ) → length m < 2 ^ 32 → next_frame (encode_frame m ++ rest) ≡ some (m, rest)
unfolding next_frame get_uint32 encode_frame set_uint32
next_frame-encode m rest h = ground (
  arith,
  length-append m rest,
  word,
  ap (λ k. take k (m ++ rest)) word,
  take-append_length m rest,
  drop-append_length m rest,
)
  where
    word :
        length m / 16777216 % 256 * 16777216
          + length m / 65536 % 256 * 65536
          + length m / 256 % 256 * 256
          + length m % 256
        ≡ length m
    word = omega arith

unfoldable pub encode_all : List (List ℕ) → List ℕ
encode_all [] = []
encode_all (m ∷ ms) = encode_frame m ++ encode_all ms

frames-encode_all :
    (ms : List (List ℕ)) (part : List ℕ) (g : ℕ)
    → All (λ m. length m < 2 ^ 32) ms
    → next_frame part ≡ none
    → length (encode_all ms ++ part) < g
    → frames g (encode_all ms ++ part) ≡ some (ms, part)
unfolding encode_all frames
frames-encode_all [] part g a n h = frames-none g part n h
frames-encode_all (m ∷ ms) part zero a n h = absurd (omega arith)
frames-encode_all (m ∷ ms) part (suc g) a n h =
    let e = next_frame-encode m (encode_all ms ++ part) a.0 in
    let x = append_assoc (encode_frame m) (encode_all ms) part in
    let s = next_frame_shorter _ m (encode_all ms ++ part) e in
    ground (arith, frames-encode_all ms part g a.1 n (omega (arith, ap {B = ℕ} length x)))

-- The frames of any messages shorter than 2 ^ 32 bytes, followed by the start of another frame
-- and cut into chunks anywhere, also inside a length prefix, come out as exactly those messages in
-- order; what is buffered is that start.
pub push_all-encode_all :
    (ms cs : List (List ℕ)) (part : List ℕ)
    → All (λ m. length m < 2 ^ 32) ms
    → next_frame part ≡ none
    → flatten cs ≡ encode_all ms ++ part
    → push_all fresh cs ≡ some (record { buffer = part; received = ms })
push_all-encode_all ms cs part a n e =
    push_all-frames cs fresh ms part (length (flatten cs) + 1)
      (rw e (frames-encode_all ms part _ a n (omega arith))) (omega arith)
      (unfold next_frame in refl)
