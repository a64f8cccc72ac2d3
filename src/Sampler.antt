-- ===== src/Sampler.antt =====
-- packages/bare-probe/core/sampler.ts: head sampling by a hash of the trace's id, and tail sampling.
-- A rate is a fraction `num / den`, as every double in [0, 1] is; a latency is a whole number.
pub mod Gates
mod Tests
use bare_network_inspect.Base.{
  ℕ, zero, suc, ◌+◌, ◌*◌, ◌/◌, ◌%◌, ◌^◌, Bool, true, false, Option, none, some, [], ◌∷◌, ltb, leb,
  ◌&&◌, ◌||◌, if◌then◌else◌, JsString,
}
use bare_network_inspect.Base.Int.{ℤ, pos_part, neg_part}

-- `^` on the low `width` bits.
unfoldable pub bit_xor : (width a b : ℕ) → ℕ
bit_xor zero a b = 0
bit_xor (suc width) a b = (a + b) % 2 + 2 * bit_xor width (a / 2) (b / 2)

-- The loop of `hashUnit`, with the 32-bit word read unsigned.
unfoldable pub hash_from : ℕ → JsString → ℕ
hash_from h [] = h
hash_from h (ch ∷ s) = hash_from ((bit_xor 32 h ch * 0x01000193) % 2 ^ 32) s

-- `hashUnit(s)` times 2^32.
unfoldable pub hash_unit : JsString → ℕ
hash_unit s = hash_from 0x811c9dc5 s

pub record TraceSummary : Type 0 where
  pub corr_id : JsString
  pub has_error : Bool
  pub max_latency_ms : Option ℤ

-- `latency_threshold_ms` is `none` for Infinity.
pub record Sampler : Type 0 where
  pub head_rate : ℕ × ℕ
  pub latency_threshold_ms : Option ℤ
  pub tail_sampling : Bool

-- The constructor, of the rate `num / den`; `none` is the RangeError.
unfoldable pub new : ℕ → ℕ → Option ℤ → Bool → Option Sampler
new num den threshold tail_sampling =
    if leb 1 den && leb num den
    then some (record {
      head_rate = (num, den);
      latency_threshold_ms = threshold;
      tail_sampling = tail_sampling;
    })
    else none

unfoldable pub head_keep : Sampler → JsString → Bool
head_keep s corr_id = ltb (hash_unit corr_id * s.head_rate.1) (s.head_rate.0 * 2 ^ 32)

unfoldable pub ltb_ℤ : ℤ → ℤ → Bool
ltb_ℤ a b = ltb (pos_part a + neg_part b) (pos_part b + neg_part a)

-- `(latency ?? -Infinity) > threshold`.
unfoldable pub exceeds : Option ℤ → Option ℤ → Bool
exceeds none threshold = false
exceeds (some latency) none = false
exceeds (some latency) (some threshold) = ltb_ℤ threshold latency

unfoldable pub tail_keep : Sampler → TraceSummary → Bool
tail_keep s trace =
    if s.tail_sampling
    then if trace.has_error then true else exceeds trace.max_latency_ms s.latency_threshold_ms
    else false

unfoldable pub keep : Sampler → TraceSummary → Bool
keep s trace = head_keep s trace.corr_id || tail_keep s trace
