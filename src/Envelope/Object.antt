-- ===== src/Envelope/Object.antt =====
-- Objects built field by field, as encode.ts and decode.ts use them: a literal, optional properties that
-- are set only when they are there, and reads by key.
use bare_network_inspect.Base.{
  ◌^◌, ◌≤◌, ◌≡◌, refl, ite, Bool, true, false, not, ◌&&◌, Option, none, some, List, [], ◌∷◌, arith,
  length, All, JsString, same, ascii,
}
use bare_network_inspect.Cbor.{Cbor, Fields, end, field, object, put_field, count_fields}
use bare_network_inspect.Cbor.RoundTrip.Plain.{Fresh, has_key, IsPlain, HasPlain, IsText}

-- The assignments that build an object; one without a value is not made.
abbrev pub Entries : Type 0 → Type 0
Entries F = List (JsString × Option (Cbor F))

module _ {F : Type 0} where
  unfoldable pub object_of : Entries F → Fields F
  object_of [] = end
  object_of ((k, none) ∷ es) = object_of es
  object_of ((k, some v) ∷ es) = field k v (object_of es)

  -- `obj[k]`, and `k in obj`, of an own property.
  unfoldable pub get_field : Fields F → JsString → Option (Cbor F)
  get_field end k = none
  get_field (field j v fs) k = ite (same j k) (some v) (get_field fs k)

  -- The first entry of a key.
  unfoldable pub entry : Entries F → JsString → Option (Cbor F)
  entry [] k = none
  entry ((j, v) ∷ es) k = ite (same j k) v (entry es k)

  -- Whether some entry has the key.
  unfoldable pub mentions : Entries F → JsString → Bool
  mentions [] k = false
  mentions ((j, v) ∷ es) k = ite (same j k) true (mentions es k)

  -- The keys of the entries are distinct, and none is `__proto__`.
  unfoldable pub has_keys : Entries F → Bool
  has_keys [] = true
  has_keys ((k, v) ∷ es) =
      not (mentions es k) && (ite (same k (ascii "__proto__")) false true && has_keys es)

  avoids : Fields F → Entries F → Bool
  avoids acc [] = true
  avoids acc ((k, v) ∷ es) = not (has_key acc k) && avoids acc es

  get_field-miss :
      (es : Entries F) (k : JsString) → mentions es k ≡ false → get_field (object_of es) k ≡ none
  unfolding get_field object_of mentions
  get_field-miss [] k h = refl
  get_field-miss ((j, none) ∷ es) k h = ground (arith, get_field-miss es k)
  get_field-miss ((j, some v) ∷ es) k h = ground (arith, get_field-miss es k)

  -- A field of the object is the value of its entry.
  pub get_field-object_of :
      (es : Entries F) (k : JsString) → has_keys es ≡ true → get_field (object_of es) k ≡ entry es k
  unfolding get_field object_of entry has_keys
  get_field-object_of [] k h = refl
  get_field-object_of ((j, none) ∷ es) k h =
      ground (arith, get_field-object_of es k, get_field-miss es k)
  get_field-object_of ((j, some v) ∷ es) k h =
      ground (arith, get_field-object_of es k, get_field-miss es k)

  has_key-put :
      (acc : Fields F) (k j : JsString) (v : Cbor F)
      → has_key (put_field acc k v) j ≡ ite (same k j) true (has_key acc j)
  unfolding has_key put_field
  has_key-put end k j v = ground arith
  has_key-put (field i w fs) k j v = ground (arith, has_key-put fs k j v)

  avoids-put :
      (acc : Fields F) (k : JsString) (v : Cbor F) (es : Entries F)
      → avoids acc es ≡ true
      → mentions es k ≡ false
      → avoids (put_field acc k v) es ≡ true
  unfolding avoids mentions
  avoids-put acc k v [] a m = refl
  avoids-put acc k v ((j, w) ∷ es) a m =
      ground (arith, avoids-put acc k v es, has_key-put acc k j v)

  Fresh-step :
      (acc : Fields F) (es : Entries F)
      → avoids acc es ≡ true
      → has_keys es ≡ true
      → Fresh acc (object_of es)
  unfolding avoids has_keys object_of
  Fresh-step acc [] a h = tt
  Fresh-step acc ((k, none) ∷ es) a h = Fresh-step acc es (ground arith) (ground arith)
  Fresh-step acc ((k, some v) ∷ es) a h = (
    ground arith,
    ground arith,
    Fresh-step (put_field acc k v) es (avoids-put acc k v es (ground arith) (ground arith))
        (ground arith),
  )

  avoids-end : (es : Entries F) → avoids end es ≡ true
  unfolding avoids has_key
  avoids-end [] = refl
  avoids-end ((k, v) ∷ es) = avoids-end es

  pub Fresh-object_of : (es : Entries F) → has_keys es ≡ true → Fresh end (object_of es)
  Fresh-object_of es h = Fresh-step end es (avoids-end es) h

  -- An entry whose value, if any, the wire carries as it is.
  abbrev pub IsPlainEntry : JsString × Option (Cbor F) → Type 0
  IsPlainEntry (k, none) = Unit {0}
  IsPlainEntry (k, some v) = IsText k × IsPlain v

  pub HasPlain-object_of : (es : Entries F) → All IsPlainEntry es → HasPlain (object_of es)
  unfolding object_of HasPlain
  HasPlain-object_of [] h = tt
  HasPlain-object_of ((k, none) ∷ es) h = HasPlain-object_of es h.1
  HasPlain-object_of ((k, some v) ∷ es) h = (h.0.0, h.0.1, HasPlain-object_of es h.1)

  pub count_fields-object_of : (es : Entries F) → count_fields (object_of es) ≤ length es
  unfolding object_of count_fields
  count_fields-object_of [] = omega arith
  count_fields-object_of ((k, none) ∷ es) = omega (arith, count_fields-object_of es)
  count_fields-object_of ((k, some v) ∷ es) = omega (arith, count_fields-object_of es)

  -- An object built from plain entries with fitting keys is plain.
  pub IsPlain-object_of :
      (es : Entries F)
      → length es ≤ 2 ^ 53
      → has_keys es ≡ true
      → All IsPlainEntry es
      → IsPlain (object (object_of es))
  unfolding IsPlain
  IsPlain-object_of es n h p =
      (omega (arith, count_fields-object_of es), Fresh-object_of es h, HasPlain-object_of es p)
