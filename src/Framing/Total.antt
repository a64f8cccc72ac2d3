-- ===== src/Framing/Total.antt =====
-- The loop of the framer in packages/bare-probe/transport/framing.ts ends on any bytes.
use bare_network_inspect.Base.{
  ℕ, zero, suc, ◌+◌, ◌≡◌, refl, arith, none, some, inl, inr, List, ◌++◌, length, Option-cases,
}
use bare_network_inspect.Framing.{StreamFramer, next_frame, frames, concat, push}
use bare_network_inspect.Framing.Reassembly.{frames_total}

-- What the loop leaves has no complete frame.
left_lem :
    (fuel : ℕ) (buffer : List ℕ) (ms : List (List ℕ)) (left : List ℕ)
    → frames fuel buffer ≡ some (ms, left)
    → next_frame left ≡ none
unfolding frames
left_lem zero buffer ms left h = absurd (ground arith)
left_lem (suc fuel) buffer ms left h = elim (Option-cases (next_frame buffer)) [
  | inl e ↦ let q : buffer ≡ left = ground arith in rw (← q) e
  | inr ((m, rest), e) ↦ elim (Option-cases (frames fuel rest)) [
    | inl g ↦ absurd (ground arith)
    | inr ((ns, l), g) ↦ let q : l ≡ left = ground arith in rw (← q) (left_lem fuel rest ns l g)
  ]
]

-- In any state and on any chunk of bytes, also of no sender of frames, the framer's loop ends within
-- its fuel; it hands out further messages, and what stays in the buffer has no complete frame.
pub push_total :
    (f : StreamFramer) (chunk : List ℕ)
    → (g : StreamFramer) × ((push f chunk ≡ some g)
        × ((next_frame g.buffer ≡ none) × ((ms : List (List ℕ)) × (g.received ≡ f.received ++ ms))))
unfolding push
push_total f chunk =
    let buffer = concat f.buffer chunk in
    let (ms, left, k) = frames_total (length buffer + 1) buffer (omega arith) in
    (
      record { buffer = left; received = f.received ++ ms },
      (ground (arith, k), (left_lem (length buffer + 1) buffer ms left k, (ms, refl))),
    )
