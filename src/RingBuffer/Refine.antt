-- ===== src/RingBuffer/Refine.antt =====
-- The ring of ring-buffer.ts against the history of what was pushed since it was last empty.
use bare_network_inspect.Base.{
  ℕ, zero, suc, ◌+◌, ◌-◌, ◌%◌, ◌≤◌, ◌<◌, ◌≡◌, refl, ap, ◌∙◌, Option, none, some, List, [], ◌∷◌,
  ◌++◌, map, length, min, drop, keep_last, keep_last-le, keep_last-snoc, length-append, length-set,
  length-replicate, map-drop, set, dec_lt, append-nil, append_assoc, arith, map-append,
}
use bare_network_inspect.RingBuffer.{
  RingBuffer, new, push, collect, to_array, erase_slots, clear, drain, push_all,
}
use bare_network_inspect.RingBuffer.Window.{collect_write, collect_overwrite}

module _ {ℓ} {A : Type ℓ} where
  -- `lost` is the value of `dropped` when the ring was last empty, `xs` what was pushed since.
  pub record Holds (r : RingBuffer A) (limit lost : ℕ) (xs : List A) : Type ℓ where
    pub capacity : r.capacity ≡ limit
    pub positive : 0 < limit
    pub storage : length r.buf ≡ limit
    pub head_in : r.head < limit
    pub counted : r.count ≡ min (length xs) limit
    pub dropped : r.dropped ≡ lost + (length xs - limit)
    pub contents : to_array r ≡ map some (keep_last limit xs)

  -- A new ring is empty, and is refused exactly at capacity 0.
  pub new-Holds : (limit : ℕ) {r : RingBuffer A} → new limit ≡ some r → Holds r limit 0 []
  unfolding new to_array collect
  new-Holds limit e = ground (arith, length-replicate {A = Option A} limit none)

  push_room :
      {r : RingBuffer A} {limit lost : ℕ} {xs : List A} (x : A)
      → Holds r limit lost xs
      → length xs < limit
      → to_array (push r x) ≡ map some (keep_last limit (xs ++ (x ∷ [])))
  unfolding push to_array
  push_room {r} {limit} {lost} {xs} x h k = ground (
    arith,
    collect_write r.buf limit r.head r.count (some x),
    keep_last-le limit xs,
    keep_last-le limit (xs ++ (x ∷ [])),
    length-append xs (x ∷ []),
    map-append some xs (x ∷ []),
  )

  push_full :
      {r : RingBuffer A} {limit lost : ℕ} {xs : List A} (x : A)
      → Holds r limit lost xs
      → limit ≤ length xs
      → to_array (push r x) ≡ map some (keep_last limit (xs ++ (x ∷ [])))
  unfolding push to_array collect
  push_full {r} {limit} {lost} {xs} x h k = ground (
    arith,
    collect_overwrite r.buf limit r.head (limit - 1) (some x),
    keep_last-snoc limit xs x,
    map-append some (drop 1 (keep_last limit xs)) (x ∷ []),
    map-drop (λ (y : A). some y) 1 (keep_last limit xs),
    oldest,
  )
    where
      oldest :
          collect r.buf limit r.head 1 (limit - 1) ≡ drop 1 (collect r.buf limit r.head 0 limit)
      oldest = ap (λ k. drop 1 (collect r.buf limit r.head 0 k)) {x = suc (limit - 1)} (omega arith)

  push-Holds :
      {r : RingBuffer A} {limit lost : ℕ} {xs : List A} (x : A)
      → to_array (push r x) ≡ map some (keep_last limit (xs ++ (x ∷ [])))
      → Holds r limit lost xs
      → Holds (push r x) limit lost (xs ++ (x ∷ []))
  unfolding push
  push-Holds {r} {limit} {lost} {xs} x e h = ground (
    arith,
    length-append xs (x ∷ []),
    length-set r.buf r.head (some x),
    length-set r.buf ((r.head + r.count) % r.capacity) (some x),
  )

  -- Pushing one item extends the history by it.
  pub push-Holds' :
      {r : RingBuffer A} {limit lost : ℕ} {xs : List A} (x : A)
      → Holds r limit lost xs
      → Holds (push r x) limit lost (xs ++ (x ∷ []))
  push-Holds' {r} {limit} {lost} {xs} x h = elim (dec_lt (length xs) limit) [
    | yes k ↦ push-Holds x (push_room x h k) h
    | no k ↦ push-Holds x (push_full x h (omega arith)) h
  ]

  -- After any pushes, `toArray` gives the last `limit` items of the history in order, and
  -- `dropped` has grown by exactly the number of items that are gone.
  pub push_all-Holds :
      (ys : List A) {r : RingBuffer A} {limit lost : ℕ} {xs : List A}
      → Holds r limit lost xs
      → Holds (push_all r ys) limit lost (xs ++ ys)
  unfolding push_all
  push_all-Holds [] h = rw append-nil h
  push_all-Holds (y ∷ ys) {xs = xs} h =
      rw (append_assoc xs (y ∷ []) ys) at (push_all-Holds ys (push-Holds' y h))

  length-erase_slots :
      (b : List (Option A)) (c h i n : ℕ) → length (erase_slots b c h i n) ≡ length b
  unfolding erase_slots
  length-erase_slots b c h i zero = refl
  length-erase_slots b c h i (suc n) =
      length-erase_slots (set b ((h + i) % c) none) c h (i + 1) n ∙ length-set b ((h + i) % c) none

  -- `drain` returns what the ring held, and leaves it empty with `dropped` kept.
  pub drain_lem :
      {r : RingBuffer A} {limit lost : ℕ} {xs : List A}
      → Holds r limit lost xs
      → ((drain r).0 ≡ map some (keep_last limit xs))
        × Holds (drain r).1 limit (lost + (length xs - limit)) []
  unfolding drain clear to_array collect
  drain_lem {r} {limit} {lost} {xs} h =
      (h.contents, ground (arith, length-erase_slots r.buf r.capacity r.head 0 r.count))
