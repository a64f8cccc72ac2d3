-- ===== src/Sampler/Tests.antt =====
-- Runs of the sampler of sampler.ts.
use bare_network_inspect.Base.{◌≡◌, refl, ◌↔◌, arith, true, false, none, some, ascii}
use bare_network_inspect.Base.Int.{pos}
use bare_network_inspect.Sampler.{
  Sampler, TraceSummary, bit_xor, hash_from, hash_unit, new, head_keep, ltb_ℤ, exceeds, tail_keep,
  keep,
}
use bare_network_inspect.Sampler.Gates.{with_rate, IsRescued, keep-ends}

abbrev one_percent : Sampler
one_percent = record {
  head_rate = (1, 100);
  latency_threshold_ms = some (pos 200);
  tail_sampling = true;
}

abbrev slow : TraceSummary
slow = record { corr_id = ascii "a"; has_error = false; max_latency_ms = some (pos 201) }

new_ends : (new 1 100 (some (pos 200)) true ≡ some one_percent) × (new 101 100 none true ≡ none)
unfolding new
new_ends = (refl, refl)

-- The published FNV-1a hash of "a".
hash_a : hash_unit (ascii "a") ≡ 0xe40c292c
unfolding hash_unit hash_from bit_xor
hash_a = refl

slow_kept : (head_keep one_percent (ascii "a") ≡ false) × (keep one_percent slow ≡ true)
unfolding keep head_keep tail_keep exceeds ltb_ℤ hash_unit hash_from bit_xor
slow_kept = (refl, refl)

keep-ends_example :
    (keep (with_rate 100 100 one_percent) slow ≡ true)
    × ((keep (with_rate 0 100 one_percent) slow ≡ true) ↔ IsRescued one_percent slow)
keep-ends_example = keep-ends 100 one_percent slow (omega arith)
