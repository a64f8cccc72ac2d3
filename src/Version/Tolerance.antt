-- ===== src/Version/Tolerance.antt =====
-- What the tolerant filter of version.ts keeps.
use bare_network_inspect.Base.{
  ◌≡◌, ap, Bool, false, none, some, List, [], ◌∷◌, ◌++◌, if◌then◌else◌, JsString, same, ascii,
  map_get, map_set, set_has, map_get-set, arith,
}
use bare_network_inspect.Base.{Distinct}
use bare_network_inspect.Version.{select_known, lacks, require, tolerant_select, required_fields}

module _ {V : Type 0} (nullish : V → Bool) where
  map_get-select_known :
      (known : List JsString) (j : JsString) (raw out : List (JsString × V))
      → Distinct same raw
      → map_get same j (select_known nullish known raw out) ≡ (
          if set_has same j known
          then elim (map_get same j raw) [ none ↦ map_get same j out | some v ↦ some v ]
          else map_get same j out)
  unfolding select_known map_get
  map_get-select_known known j [] out d = ground arith
  map_get-select_known known j ((k, v) ∷ raw) out d = ground (
    arith,
    map_get-select_known known j raw (if set_has same k known then map_set same k v out else out),
    map_get-set same k j v out,
  )

  require-some :
      (reqs : List JsString) (out got : List (JsString × V))
      → require nullish reqs out ≡ some got
      → got ≡ out
  unfolding require
  require-some [] out got e = ground arith
  require-some (r ∷ reqs) out got e = ground (arith, require-some reqs out got)

  -- Of an object with distinct keys, the filter's result has the known fields with their values and
  -- no other field, and it has a corrId and a method that are neither undefined nor null.
  pub map_get-tolerant_select :
      (raw out : List (JsString × V)) (known : List JsString) (j : JsString)
      → Distinct same raw
      → tolerant_select nullish raw known ≡ some out
      → (map_get same j out ≡ (if set_has same j known then map_get same j raw else none))
        × (lacks nullish out (ascii "corrId") ≡ false)
        × (lacks nullish out (ascii "method") ≡ false)
  unfolding tolerant_select require map_get
  map_get-tolerant_select raw out known j d e = ground (
    arith,
    map_get-select_known known j raw [] d,
    require-some required_fields (select_known nullish known raw []) out,
  )

  select_known-append :
      (known : List JsString) (k : JsString) (v : V) (front back out : List (JsString × V))
      → set_has same k known ≡ false
      → select_known nullish known (front ++ ((k, v) ∷ back)) out
        ≡ select_known nullish known (front ++ back) out
  unfolding select_known
  select_known-append known k v [] back out h = ground arith
  select_known-append known k v ((j, w) ∷ front) back out h = ground (
    arith,
    select_known-append known k v front back
        (if set_has same j known then map_set same j w out else out) h,
  )

  -- A field of a newer version, anywhere in the object, makes no difference: with it the filter keeps
  -- the same fields, or fails just as without it.
  pub tolerant_select_extra :
      (known : List JsString) (k : JsString) (v : V) (front back : List (JsString × V))
      → set_has same k known ≡ false
      → tolerant_select nullish (front ++ ((k, v) ∷ back)) known
        ≡ tolerant_select nullish (front ++ back) known
  unfolding tolerant_select
  tolerant_select_extra known k v front back h =
      ap (require nullish required_fields) (select_known-append known k v front back [] h)
