-- ===== src/RingBuffer.antt =====
-- packages/bare-probe/core/ring-buffer.ts: the fixed-size ring that holds the collector's rows.
-- A slot of the backing array is an `Option`, with `none` for `undefined`.
pub mod Window
pub mod Refine
mod Tests
use bare_network_inspect.Base.{
  ℕ, zero, suc, ◌+◌, ◌%◌, Bool, Option, none, some, List, [], ◌∷◌, get_or, set, replicate, ◌==◌,
  if◌then◌else◌,
}

pub record RingBuffer {ℓ} (A : Type ℓ) : Type ℓ where
  pub capacity : ℕ
  pub dropped : ℕ
  pub buf : List (Option A)
  pub head : ℕ
  pub count : ℕ

module _ {ℓ} {A : Type ℓ} where
  -- The constructor; `none` is the RangeError.
  unfoldable pub new : ℕ → Option (RingBuffer A)
  new capacity =
      if capacity == 0
      then none
      else some (record {
        capacity = capacity;
        dropped = 0;
        buf = replicate capacity none;
        head = 0;
        count = 0;
      })

  unfoldable pub push : RingBuffer A → A → RingBuffer A
  push r item =
      if r.count == r.capacity
      then record r {
        buf = set r.buf r.head (some item);
        head = (r.head + 1) % r.capacity;
        dropped = r.dropped + 1;
      }
      else record r {
        buf = set r.buf ((r.head + r.count) % r.capacity) (some item);
        count = r.count + 1;
      }

  -- The slots at `head + i`, `head + i + 1`, … for `n` rounds of the loop of `toArray`.
  unfoldable pub collect : List (Option A) → ℕ → ℕ → ℕ → ℕ → List (Option A)
  collect buf capacity head i zero = []
  collect buf capacity head i (suc n) =
      get_or buf ((head + i) % capacity) none ∷ collect buf capacity head (i + 1) n

  -- The iterator yields the same slots in the same order.
  unfoldable pub to_array : RingBuffer A → List (Option A)
  to_array r = collect r.buf r.capacity r.head 0 r.count

  -- The loop of `clear`, `n` rounds from index `i` on.
  unfoldable pub erase_slots : List (Option A) → ℕ → ℕ → ℕ → ℕ → List (Option A)
  erase_slots buf capacity head i zero = buf
  erase_slots buf capacity head i (suc n) =
      erase_slots (set buf ((head + i) % capacity) none) capacity head (i + 1) n

  unfoldable pub clear : RingBuffer A → RingBuffer A
  clear r = record r { buf = erase_slots r.buf r.capacity r.head 0 r.count; head = 0; count = 0 }

  unfoldable pub drain : RingBuffer A → List (Option A) × RingBuffer A
  drain r = (to_array r, clear r)

  -- The loop of `find` over what the iterator yields.
  unfoldable pub find_from : (Option A → ℕ → Bool) → ℕ → List (Option A) → Option (Option A)
  find_from pred i [] = none
  find_from pred i (x ∷ xs) = if pred x i then some x else find_from pred (i + 1) xs

  unfoldable pub find : (Option A → ℕ → Bool) → RingBuffer A → Option (Option A)
  find pred r = find_from pred 0 (to_array r)

  -- Pushes in order.
  unfoldable pub push_all : RingBuffer A → List A → RingBuffer A
  push_all r [] = r
  push_all r (x ∷ xs) = push_all (push r x) xs
