-- ===== src/Version/Tests.antt =====
-- Runs of the negotiation and the filter of version.ts.
use bare_network_inspect.Base.{
  ℕ, ◌≤◌, ◌≡◌, refl, Bool, false, none, some, List, [], ◌∷◌, arith, ℕ_discrete, ◌==◌, if◌then◌else◌,
  JsString, same, ascii, map_get, map_set, set_has,
}
use bare_network_inspect.Version.{
  VersionRange, negotiate, tolerant_select, select_known, lacks, require, v1_fields,
  supported_range,
}
use bare_network_inspect.Version.Negotiation.{Speaks, negotiate_highest}
use bare_network_inspect.Version.Tolerance.{map_get-tolerant_select}

abbrev older : VersionRange
older = record { vmin = 1; vmax = 3 }

abbrev newer : VersionRange
newer = record { vmin = 2; vmax = 5 }

negotiate-some : (negotiate older newer ≡ some 3) × (negotiate supported_range newer ≡ none)
unfolding negotiate
negotiate-some = (refl, refl)

negotiate_highest_example :
    (n : ℕ) × (negotiate older newer ≡ some n)
    × (negotiate newer older ≡ some n)
    × Speaks older n
    × Speaks newer n
    × (2 ≤ n)
negotiate_highest_example =
    negotiate_highest older newer 2 (omega arith, omega arith) (omega arith, omega arith)

-- The only nullish value here is 0.
abbrev is_zero : ℕ → Bool
is_zero v = v == 0

abbrev raw : List (JsString × ℕ)
raw = (ascii "corrId", 4) ∷ (ascii "priority", 9) ∷ (ascii "method", 5) ∷ []

abbrev kept : List (JsString × ℕ)
kept = (ascii "corrId", 4) ∷ (ascii "method", 5) ∷ []

select_raw : tolerant_select is_zero raw v1_fields ≡ some kept
unfolding tolerant_select select_known lacks require set_has map_set map_get same ℕ_discrete
select_raw = refl

select_missing : tolerant_select is_zero ((ascii "method", 5) ∷ []) v1_fields ≡ none
unfolding tolerant_select select_known lacks require set_has map_set map_get same ℕ_discrete
select_missing = refl

map_get-tolerant_select_example :
    (map_get same (ascii "priority") kept ≡ (
      if set_has same (ascii "priority") v1_fields
      then map_get same (ascii "priority") raw
      else none))
    × (lacks is_zero kept (ascii "corrId") ≡ false)
    × (lacks is_zero kept (ascii "method") ≡ false)
unfolding map_get same ℕ_discrete
map_get-tolerant_select_example =
    map_get-tolerant_select is_zero raw kept v1_fields (ascii "priority") (refl, (refl, (refl, tt)))
      select_raw
