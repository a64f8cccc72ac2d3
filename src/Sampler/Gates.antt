-- ===== src/Sampler/Gates.antt =====
-- When the sampler of sampler.ts keeps a trace.
use bare_network_inspect.Base.{
  ℕ, zero, suc, ◌+◌, ◌-◌, ◌*◌, ◌/◌, ◌%◌, ◌^◌, ◌≤◌, ◌<◌, ◌≡◌, ◌⊎◌, ◌↔◌, inl, inr, ap, refl, true,
  Option, none, some, [], ◌∷◌, JsString, arith, dec_lt,
}
use bare_network_inspect.Base.Int.{ℤ, pos, negsuc, sub_ℕ}
use bare_network_inspect.Sampler.{
  Sampler, TraceSummary, bit_xor, hash_from, hash_unit, head_keep, ltb_ℤ, exceeds, tail_keep, keep,
}

bit_xor_bound : (width a b : ℕ) → bit_xor width a b < 2 ^ width
unfolding bit_xor
bit_xor_bound zero a b = omega arith
bit_xor_bound (suc width) a b = omega (arith, bit_xor_bound width (a / 2) (b / 2))

-- The hash of every id is a 32-bit word, so that the code's quotient lies below 1.
pub hash_from_bound : (h : ℕ) (s : JsString) → h < 2 ^ 32 → hash_from h s < 2 ^ 32
unfolding hash_from
hash_from_bound h [] p = p
hash_from_bound h (ch ∷ s) p =
    hash_from_bound ((bit_xor 32 h ch * 0x01000193) % 2 ^ 32) s (omega arith)

hash_unit_bound : (s : JsString) → hash_unit s < 2 ^ 32
unfolding hash_unit
hash_unit_bound s = hash_from_bound 0x811c9dc5 s (omega arith)

mul_lt : (x n d : ℕ) → x < n → 0 < d → x * d < d * n
mul_lt x n zero p q = absurd (omega arith)
mul_lt x n (suc zero) p q = omega arith
mul_lt x n (suc (suc d)) p q = omega (arith, mul_lt x n (suc d) p (omega arith))

-- The sampler with another rate.
abbrev pub with_rate : ℕ → ℕ → Sampler → Sampler
with_rate num den s = record s { head_rate = (num, den) }

-- `t + d`, for a number `d`.
abbrev pub later_by : ℤ → ℕ → ℤ
later_by (pos n) d = pos (n + d)
later_by (negsuc n) d = sub_ℕ d (suc n)

-- A latency that is known, above a threshold that is finite.
abbrev pub IsAbove : Option ℤ → Option ℤ → Type 0
IsAbove latency threshold =
    (t : ℤ) × ((d : ℕ) × ((threshold ≡ some t) × (latency ≡ some (later_by t (suc d)))))

above_by : (l t : ℤ) → ltb_ℤ t l ≡ true → (d : ℕ) × (l ≡ later_by t (suc d))
unfolding ltb_ℤ
above_by (pos n) (pos m) h = (n - m - 1, ground arith)
above_by (pos n) (negsuc m) h = (n + m, ground arith)
above_by (negsuc n) (pos m) h = absurd (ground arith)
above_by (negsuc n) (negsuc m) h = (m - n - 1, ground arith)

ltb_ℤ-later_by : (t : ℤ) (d : ℕ) → ltb_ℤ t (later_by t (suc d)) ≡ true
unfolding ltb_ℤ
ltb_ℤ-later_by (pos m) d = ground arith
ltb_ℤ-later_by (negsuc m) d = elim (dec_lt d m) [ yes h ↦ ground arith | no h ↦ ground arith ]

exceeds-IsAbove :
    (latency threshold : Option ℤ) → exceeds latency threshold ≡ true → IsAbove latency threshold
unfolding exceeds
exceeds-IsAbove none threshold h = absurd (ground arith)
exceeds-IsAbove (some l) none h = absurd (ground arith)
exceeds-IsAbove (some l) (some t) h = let (d, e) = above_by l t h in (t, (d, (refl, ap some e)))

IsAbove-exceeds :
    (latency threshold : Option ℤ) → IsAbove latency threshold → exceeds latency threshold ≡ true
unfolding exceeds
IsAbove-exceeds latency threshold (t, (d, (a, b))) = rw (a, b) (ltb_ℤ-later_by t d)

-- What the tail gate rescues: tail sampling is on, and the trace has an error or is too slow.
abbrev pub IsRescued : Sampler → TraceSummary → Type 0
IsRescued s trace =
    (s.tail_sampling ≡ true)
    × ((trace.has_error ≡ true) ⊎ IsAbove trace.max_latency_ms s.latency_threshold_ms)

tail_keep_gates :
    (s : Sampler) (trace : TraceSummary)
    → (tail_keep s trace ≡ true) ↔ (
        (s.tail_sampling ≡ true)
        × ((trace.has_error ≡ true) ⊎ (exceeds trace.max_latency_ms s.latency_threshold_ms ≡ true)))
unfolding tail_keep
tail_keep_gates s trace = ground arith

tail_keep-IsRescued :
    (s : Sampler) (trace : TraceSummary) → (tail_keep s trace ≡ true) ↔ IsRescued s trace
tail_keep-IsRescued s trace = (
  λ h.
      let (on, why) = (tail_keep_gates s trace).0 h in
      (on, elim why [ inl e ↦ inl e | inr e ↦ inr (exceeds-IsAbove _ _ e) ]),
  λ h.
      (tail_keep_gates s trace).1
        (h.0, elim h.1 [ inl e ↦ inl e | inr e ↦ inr (IsAbove-exceeds _ _ e) ]),
)

keep_at_ends :
    (den : ℕ) (s : Sampler) (trace : TraceSummary)
    → 0 < den
    → (keep (with_rate den den s) trace ≡ true)
      × (keep (with_rate 0 den s) trace ≡ tail_keep s trace)
unfolding keep head_keep tail_keep
keep_at_ends den s trace p =
    ground (arith, mul_lt (hash_unit trace.corr_id) (2 ^ 32) den (hash_unit_bound trace.corr_id) p)

-- At rate 1, written as a fraction with any denominator but 0, every trace is kept. At rate 0 a trace
-- is kept just if tail sampling is on, and the trace has an error or a latency that is known and
-- greater than a threshold that is finite.
pub keep-ends :
    (den : ℕ) (s : Sampler) (trace : TraceSummary)
    → 0 < den
    → (keep (with_rate den den s) trace ≡ true)
      × ((keep (with_rate 0 den s) trace ≡ true) ↔ IsRescued s trace)
keep-ends den s trace p =
    let (all, rescued) = keep_at_ends den s trace p in
    (all, rw rescued (tail_keep-IsRescued s trace))

-- Of two rates with the same denominator, the higher keeps every trace that the lower keeps.
pub keep_mono :
    (den num num' : ℕ) (s : Sampler) (trace : TraceSummary)
    → num ≤ num'
    → keep (with_rate num den s) trace ≡ true
    → keep (with_rate num' den s) trace ≡ true
unfolding keep head_keep tail_keep
keep_mono den num num' s trace p h = ground arith
