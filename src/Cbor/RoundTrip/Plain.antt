-- ===== src/Cbor/RoundTrip/Plain.antt =====
-- The values that cbor.ts carries unchanged, and the fuel that decoding them takes.
use bare_network_inspect.Base.{
  ℕ, ◌+◌, ◌^◌, ◌≤◌, ◌<◌, ◌≡◌, refl, ◌≢◌, ite, Bool, true, false, arith, length, All, JsString, same,
  ascii,
}
use bare_network_inspect.Base.Int.{pos, negsuc}
use bare_network_inspect.Utf8.{utf8_encode}
use bare_network_inspect.Utf8.RoundTrip.{IsUnit, well_formed}
use bare_network_inspect.Cbor.{
  Cbor, null, undefined, boolean, int, float, text, bytes, array, object, Items, nil, cons, Fields,
  end, field, count_items, count_fields, put_field,
}

-- A string that the wire carries as it is.
pub record IsText (s : JsString) : Type 0 where
  pub units : All IsUnit s
  pub paired : well_formed s ≡ true
  pub short : length (utf8_encode s) ≤ 2 ^ 53

module _ {F : Type 0} where
  unfoldable pub has_key : Fields F → JsString → Bool
  has_key end k = false
  has_key (field j w fs) k = ite (same j k) true (has_key fs k)

  unfoldable pub append_fields : Fields F → Fields F → Fields F
  append_fields end gs = gs
  append_fields (field k v fs) gs = field k v (append_fields fs gs)

  -- No key of `fs` is in `acc`, comes twice, or is `__proto__`.
  abbrev pub Fresh : Fields F → Fields F → Type 0
  Fresh acc end = Unit {0}
  Fresh acc (field k v fs) =
      (has_key acc k ≡ false) × (k ≢ ascii "__proto__") × Fresh (put_field acc k v) fs

  -- The values that the wire carries as they are: safe integers, strings without lone surrogates,
  -- objects with keys that are distinct and not `__proto__`; no `undefined`.
  unfoldable mutual
    unfolding count_items count_fields

    pub IsPlain : Cbor F → Type 0
    IsPlain null = Unit {0}
    IsPlain undefined = ⊥
    IsPlain (boolean b) = Unit {0}
    IsPlain (int (pos n)) = n < 2 ^ 53
    IsPlain (int (negsuc n)) = n + 1 < 2 ^ 53
    IsPlain (float x) = Unit {0}
    IsPlain (text s) = IsText s
    IsPlain (bytes b) = length b ≤ 2 ^ 53
    IsPlain (array xs) = (count_items xs ≤ 2 ^ 53) × ArePlain xs
    IsPlain (object fs) = (count_fields fs ≤ 2 ^ 53) × Fresh end fs × HasPlain fs

    pub ArePlain : Items F → Type 0
    ArePlain nil = Unit {0}
    ArePlain (cons x xs) = IsPlain x × ArePlain xs

    pub HasPlain : Fields F → Type 0
    HasPlain end = Unit {0}
    HasPlain (field k v fs) = IsText k × IsPlain v × HasPlain fs

  unfoldable mutual
    pub need : Cbor F → ℕ
    need (array xs) = need_items xs + 1
    need (object fs) = need_fields fs + 1
    need null = 1
    need undefined = 1
    need (boolean b) = 1
    need (int n) = 1
    need (float x) = 1
    need (text s) = 1
    need (bytes b) = 1

    pub need_items : Items F → ℕ
    need_items nil = 1
    need_items (cons x xs) = 1 + need x + need_items xs

    pub need_fields : Fields F → ℕ
    need_fields end = 1
    need_fields (field k v fs) = 2 + need v + need_fields fs

  pub append_fields-end : (fs : Fields F) → append_fields end fs ≡ fs
  unfolding append_fields
  append_fields-end fs = refl

  -- A fresh property goes to the end.
  pub append_fields-put :
      (acc : Fields F) (k : JsString) (v : Cbor F) (fs : Fields F)
      → has_key acc k ≡ false
      → append_fields (put_field acc k v) fs ≡ append_fields acc (field k v fs)
  unfolding append_fields put_field has_key
  append_fields-put end k v fs h = refl
  append_fields-put (field j w acc) k v fs h = ground (arith, append_fields-put acc k v fs)
