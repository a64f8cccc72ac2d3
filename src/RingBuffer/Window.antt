-- ===== src/RingBuffer/Window.antt =====
-- The window of slots that `toArray` of ring-buffer.ts reads, under a write to one slot.
use bare_network_inspect.Base.{
  ℕ, zero, suc, ◌+◌, ◌-◌, ◌%◌, ◌≤◌, ◌<◌, ◌≡◌, ◌≢◌, refl, sym, ap, ◌∙◌, Option, none, List, [], ◌∷◌,
  ◌++◌, get_or, set, length, dec_lt, get_or-set_self, get_or-set_ne, arith,
}
use bare_network_inspect.RingBuffer.{collect}
use mathlib.Core.Path.{ap₂}
use native.Mathlib.Nat.{zero-add, mod-add-mod, mod-eq_of_lt, mod-eq-sub-mod}

-- One lap of the ring at most: the index is its sum, or that less the capacity.
lap : (x c : ℕ) → c ≤ x → x < c + c → x % c ≡ x - c
lap x c h k = mod-eq-sub-mod {n = x} {m = c} h ∙ mod-eq_of_lt {n = x - c} {m = c} (omega arith)

-- Two different offsets below the capacity are two different slots.
pub slots_differ : (h j k c : ℕ) → h < c → j < k → k < c → (h + k) % c ≢ (h + j) % c
slots_differ h j k c p q r = elim (dec_lt (h + k) c) [
  | yes s ↦
      omega
        (arith, mod-eq_of_lt {n = h + k} {m = c} s, mod-eq_of_lt {n = h + j} {m = c} (omega arith))
  | no s ↦ elim (dec_lt (h + j) c) [
    | yes t ↦
        omega (arith, lap (h + k) c (omega arith) (omega arith), mod-eq_of_lt {n = h + j} {m = c} t)
    | no t ↦ omega (
      arith,
      lap (h + k) c (omega arith) (omega arith),
      lap (h + j) c (omega arith) (omega arith),
    )
  ]
]

module _ {ℓ} {A : Type ℓ} where
  pub length-collect : (buf : List (Option A)) (c h i n : ℕ) → length (collect buf c h i n) ≡ n
  unfolding collect
  length-collect buf c h i zero = refl
  length-collect buf c h i (suc n) = ap suc (length-collect buf c h (i + 1) n)

  -- Two windows are equal when their slots are.
  pub collect_ext :
      (b b' : List (Option A)) (c h h' i i' n : ℕ)
      → ((j : ℕ) → j < n → get_or b ((h + (i + j)) % c) none ≡ get_or b' ((h' + (i' + j)) % c) none)
      → collect b c h i n ≡ collect b' c h' i' n
  unfolding collect
  collect_ext b b' c h h' i i' zero e = refl
  collect_ext b b' c h h' i i' (suc n) e =
      ap₂ ◌∷◌ (at_offset (i + 0) i (i' + 0) i' (omega arith) (omega arith) (e 0 (omega arith))) (
        collect_ext b b' c h h' (i + 1) (i' + 1) n (λ j p.
          at_offset (i + suc j) (i + 1 + j) (i' + suc j) (i' + 1 + j) (omega arith) (omega arith)
            (e (suc j) (omega arith))))
    where
      at_offset :
          (p q p' q' : ℕ)
          → p ≡ q
          → p' ≡ q'
          → get_or b ((h + p) % c) none ≡ get_or b' ((h' + p') % c) none
          → get_or b ((h + q) % c) none ≡ get_or b' ((h' + q') % c) none
      at_offset p q p' q' s t u = rw (← s, ← t) u

  pub collect_snoc :
      (b : List (Option A)) (c h i n : ℕ)
      → collect b c h i (suc n) ≡ collect b c h i n ++ (get_or b ((h + (i + n)) % c) none ∷ [])
  unfolding collect
  collect_snoc b c h i zero = ap (λ k. get_or b ((h + k) % c) none ∷ []) (omega arith)
  collect_snoc b c h i (suc n) = ap (◌∷◌ (get_or b ((h + i) % c) none)) (
      collect_snoc b c h (i + 1) n
      ∙ ap (λ k. collect b c h (i + 1) n ++ (get_or b ((h + k) % c) none ∷ [])) (omega arith))

  -- A write just behind a window that is not full adds the item at its end.
  pub collect_write :
      (b : List (Option A)) (c h n : ℕ) (x : Option A)
      → c ≤ length b
      → h < c
      → n < c
      → collect (set b ((h + n) % c) x) c h 0 (suc n) ≡ collect b c h 0 n ++ (x ∷ [])
  collect_write b c h n x s p q =
      collect_snoc (set b ((h + n) % c) x) c h 0 n
      ∙ ap₂ (λ l y. l ++ (y ∷ []))
          (collect_ext (set b ((h + n) % c) x) b c h h 0 0 n
            (λ j r. rw zero-add (get_or-set_ne b x none (slots_differ h j n c p r q))))
          (rw zero-add (get_or-set_self b ((h + n) % c) x none (omega arith)))

  -- A write over the oldest slot of a full window drops it, and the item becomes the newest.
  pub collect_overwrite :
      (b : List (Option A)) (c h n : ℕ) (x : Option A)
      → c ≤ length b
      → h < c
      → c ≡ suc n
      → collect (set b h x) c ((h + 1) % c) 0 c ≡ collect b c h 1 n ++ (x ∷ [])
  collect_overwrite b c h n x s p q =
      ap (collect (set b h x) c ((h + 1) % c) 0) q
      ∙ collect_snoc (set b h x) c ((h + 1) % c) 0 n
      ∙ ap₂ (λ l y. l ++ (y ∷ []))
          (collect_ext (set b h x) b c ((h + 1) % c) h 0 1 n
            (λ j r. rw (turn j) (get_or-set_ne b x none (other j r))))
          (rw (turn n) (rw back (get_or-set_self b h x none (omega arith))))
    where
      turn : (j : ℕ) → ((h + 1) % c + (0 + j)) % c ≡ (h + (1 + j)) % c
      turn j = rw zero-add (mod-add-mod (h + 1) c j ∙ ap (λ k. k % c) (omega arith))

      back : (h + (1 + n)) % c ≡ h
      back = lap (h + (1 + n)) c (omega arith) (omega arith) ∙ omega arith

      other : (j : ℕ) → j < n → h ≢ (h + (1 + j)) % c
      other j r = λ e.
          slots_differ h 0 (1 + j) c p (omega arith) (omega arith)
            (sym e ∙ sym (mod-eq_of_lt {n = h + 0} {m = c} (omega arith) ∙ omega arith))
