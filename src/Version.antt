-- ===== src/Version.antt =====
-- packages/bare-protocol/src/version.ts: version negotiation and the tolerant field filter.
-- An object is the list of its properties in the order of `Object.keys`. The parameter `nullish` tells
-- the values that are undefined or null.
pub mod Negotiation
pub mod Tolerance
mod Tests
use bare_network_inspect.Base.{
  ℕ, min, max, Bool, true, Option, none, some, List, [], ◌∷◌, leb, if◌then◌else◌, JsString, same,
  ascii, map_get, map_set, set_has,
}

abbrev pub protocol_version : ℕ
protocol_version = 1

pub record VersionRange : Type 0 where
  pub vmin : ℕ
  pub vmax : ℕ

abbrev pub supported_range : VersionRange
supported_range = record { vmin = 1; vmax = 1 }

unfoldable pub negotiate : VersionRange → VersionRange → Option ℕ
negotiate a b =
    let lo = max a.vmin b.vmin in let hi = min a.vmax b.vmax in if leb lo hi then some hi else none

abbrev pub required_fields : List JsString
required_fields = ascii "corrId" ∷ ascii "method" ∷ []

abbrev pub v1_fields : List JsString
v1_fields =
    ascii "v"
    ∷ ascii "msgId"
    ∷ ascii "corrId"
    ∷ ascii "causedBy"
    ∷ ascii "traceparent"
    ∷ ascii "kind"
    ∷ ascii "method"
    ∷ ascii "src"
    ∷ ascii "dst"
    ∷ ascii "ts"
    ∷ ascii "hlc"
    ∷ ascii "ttl"
    ∷ ascii "payload"
    ∷ []

module _ {V : Type 0} (nullish : V → Bool) where
  -- The first loop of `tolerantSelect`, from the object `out` on.
  unfoldable pub select_known :
      List JsString → List (JsString × V) → List (JsString × V) → List (JsString × V)
  select_known known [] out = out
  select_known known ((k, v) ∷ raw) out =
      select_known known raw (if set_has same k known then map_set same k v out else out)

  -- `out[req] === undefined || out[req] === null`.
  unfoldable pub lacks : List (JsString × V) → JsString → Bool
  lacks out req = elim (map_get same req out) [ none ↦ true | some v ↦ nullish v ]

  -- The second loop; `none` is its Error.
  unfoldable pub require : List JsString → List (JsString × V) → Option (List (JsString × V))
  require [] out = some out
  require (req ∷ reqs) out = let rest = require reqs out in if lacks out req then none else rest

  unfoldable pub tolerant_select :
      List (JsString × V) → List JsString → Option (List (JsString × V))
  tolerant_select raw known = require required_fields (select_known known raw [])
