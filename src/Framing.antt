-- ===== src/Framing.antt =====
-- packages/bare-probe/transport/framing.ts: length-prefixed frames over a byte stream.
pub mod Reassembly
pub mod Total
mod Tests
use bare_network_inspect.Base.{
  ℕ, zero, suc, ◌+◌, ◌*◌, ◌/◌, ◌%◌, ◌^◌, Option, none, some, List, [], ◌∷◌, ◌++◌, ltb,
  if◌then◌else◌, length, get_or, take, drop,
}

-- `concat`.
unfoldable pub concat : List ℕ → List ℕ → List ℕ
concat a b = a ++ b

abbrev pub length_prefix_bytes : ℕ
length_prefix_bytes = 4

-- The four bytes that `setUint32(0, n, false)` writes.
unfoldable pub set_uint32 : ℕ → List ℕ
set_uint32 n = (n / 2 ^ 24 % 256) ∷ (n / 2 ^ 16 % 256) ∷ (n / 2 ^ 8 % 256) ∷ (n % 256) ∷ []

-- `getUint32(0, false)` of a buffer of at least four bytes.
unfoldable pub get_uint32 : List ℕ → ℕ
get_uint32 b = get_or b 0 0 * 2 ^ 24 + get_or b 1 0 * 2 ^ 16 + get_or b 2 0 * 2 ^ 8 + get_or b 3 0

unfoldable pub encode_frame : List ℕ → List ℕ
unfolding set_uint32
encode_frame bytes = set_uint32 (length bytes) ++ bytes

-- One round of the loop of `push`: the message and the bytes behind it, or `none` for `return`.
unfoldable pub next_frame : List ℕ → Option (List ℕ × List ℕ)
unfolding get_uint32
next_frame buffer =
    let total = length_prefix_bytes + get_uint32 buffer in
    if ltb (length buffer) length_prefix_bytes
    then none
    else if ltb (length buffer) total
    then none
    else some (drop length_prefix_bytes (take total buffer), drop total buffer)

-- The loop of `push` on fuel: the messages handed to `onMessage`, and the buffer left.
-- `none` means that the fuel ran out.
unfoldable pub frames : ℕ → List ℕ → Option (List (List ℕ) × List ℕ)
frames zero buffer = none
frames (suc fuel) buffer = elim (next_frame buffer) [
  | none ↦ some ([], buffer)
  | some (message, rest) ↦ elim (frames fuel rest) [
    | none ↦ none
    | some (messages, left) ↦ some (message ∷ messages, left)
  ]
]

-- `StreamFramer`: its buffer, and the messages that `onMessage` has received.
pub record StreamFramer : Type 0 where
  pub buffer : List ℕ
  pub received : List (List ℕ)

abbrev pub fresh : StreamFramer
fresh = record { buffer = []; received = [] }

-- The getter `pending`.
unfoldable pub pending : StreamFramer → ℕ
pending f = length f.buffer

-- Each round takes four bytes at least, so one round more than there are bytes is enough.
unfoldable pub push : StreamFramer → List ℕ → Option StreamFramer
unfolding concat
push f chunk =
    let buffer = concat f.buffer chunk in
    elim (frames (length buffer + 1) buffer) [
      | none ↦ none
      | some (messages, left) ↦ some (record { buffer = left; received = f.received ++ messages })
    ]

unfoldable pub push_all : StreamFramer → List (List ℕ) → Option StreamFramer
push_all f [] = some f
push_all f (chunk ∷ chunks) = elim (push f chunk) [ none ↦ none | some g ↦ push_all g chunks ]

-- `PassthroughFramer.push`: every chunk is one message.
unfoldable pub passthrough_push : StreamFramer → List ℕ → Option StreamFramer
passthrough_push f chunk = some (record f { received = f.received ++ (chunk ∷ []) })

pub data Orientation : Type 0 where
  message stream : Orientation

-- `createFramer`, by the `push` of the framer that it makes.
unfoldable pub framer_push : Orientation → StreamFramer → List ℕ → Option StreamFramer
framer_push stream = push
framer_push message = passthrough_push
