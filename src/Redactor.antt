-- ===== src/Redactor.antt =====
-- packages/bare-probe/core/redactor.ts: what of a row may leave the device.
-- A value is a tree, so that the code's mark of a circular object does not occur. A number is an `F`, a
-- view of a buffer is a Uint8Array. The host's parts are parameters: `JSON.stringify`, the number of a
-- byte, and `new URL`, with the protocol and the host that it finds, or none where it throws.
pub mod Safe
pub mod Rows
pub mod Resolve
mod Tests
use bare_network_inspect.Base.{
  ℕ, zero, suc, ◌+◌, ◌≡◌, Bool, true, false, ◌&&◌, ◌||◌, Option, none, some, List, [], ◌∷◌, ◌++◌,
  length, ltb, ◌==◌, take, drop, ◌>>=◌, if◌then◌else◌, JsString, ascii, same, map_get, set_has,
}
use bare_network_inspect.Utf8.{utf8_encode}
use bare_network_inspect.Ulid.{to_base}
use bare_network_inspect.Hlc.{decimal}
use bare_network_inspect.Registry.{
  PeerRegistry, fnv_from, key_of, is_same, broadcast, handle_for, peer_from_handle,
}

mutual
  pub data Value (F : Type 0) : Type 0 where
    undefined : Value F
    null : Value F
    boolean : Bool → Value F
    number : F → Value F
    text : JsString → Value F
    bigint : (digits : JsString) → Value F
    function : Value F
    bytes : List ℕ → Value F
    array_buffer : List ℕ → Value F
    array : Values F → Value F
    object : Props F → Value F

  pub data Values (F : Type 0) : Type 0 where
    nil : Values F
    cons : Value F → Values F → Values F

  pub data Props (F : Type 0) : Type 0 where
    end : Props F
    field : JsString → Value F → Props F → Props F

abbrev pub Row : Type 0 → Type 0
Row F = List (JsString × Value F)

-- `fnv1aHex`: both halves in eight hexadecimal digits; the rounds are those of registry.ts.
unfoldable pub fnv1a_hex : List ℕ → JsString
fnv1a_hex bs =
    let h = fnv_from (0xcbf29ce4, 0x84222325) bs in
    key_of (to_base 256 4 h.0 (to_base 256 4 h.1 []))

-- `<=` of strings, by code units.
unfoldable pub text_le : JsString → JsString → Bool
text_le [] t = true
text_le (a ∷ s) [] = false
text_le (a ∷ s) (b ∷ t) =
    let rest = text_le s t in if ltb a b then true else if a == b then rest else false

module _ {F : Type 0} where
  -- The place of a key among sorted keys.
  unfoldable pub insert : JsString → Value F → Props F → Props F
  insert k v end = field k v end
  insert k v (field j w fs) =
      let rest = insert k v fs in if text_le k j then field k v (field j w fs) else field j w rest

  unfoldable pub count_values : Values F → ℕ
  count_values nil = 0
  count_values (cons v vs) = suc (count_values vs)

  -- A view's own properties: its indices.
  unfoldable pub indexed : (ℕ → F) → ℕ → List ℕ → Props F
  indexed of_byte i [] = end
  indexed of_byte i (b ∷ bs) = field (decimal i) (number (of_byte b)) (indexed of_byte (suc i) bs)

  module _ (of_byte : ℕ → F) where
    -- `sortDeep`, by the depth that is left of MAX_SORT_DEPTH.
    unfoldable mutual
      unfolding insert indexed

      pub sort_deep : ℕ → Value F → Value F
      sort_deep n undefined = undefined
      sort_deep n null = null
      sort_deep n (boolean b) = boolean b
      sort_deep n (number x) = number x
      sort_deep n (text s) = text s
      sort_deep n (bigint s) = text (ascii "[BigInt:" ++ s ++ ascii "]")
      sort_deep n function = text (ascii "[Function]")
      sort_deep zero (bytes bs) = text (ascii "[MaxDepth]")
      sort_deep (suc n) (bytes bs) = object (indexed of_byte 0 bs)
      sort_deep zero (array_buffer bs) = text (ascii "[MaxDepth]")
      sort_deep (suc n) (array_buffer bs) = object end
      sort_deep zero (array vs) = text (ascii "[MaxDepth]")
      sort_deep (suc n) (array vs) = array (sort_values n vs)
      sort_deep zero (object fs) = text (ascii "[MaxDepth]")
      sort_deep (suc n) (object fs) = object (sort_props n fs)

      pub sort_values : ℕ → Values F → Values F
      sort_values n nil = nil
      sort_values n (cons v vs) = cons (sort_deep n v) (sort_values n vs)

      pub sort_props : ℕ → Props F → Props F
      sort_props n end = end
      sort_props n (field k v fs) = insert k (sort_deep n v) (sort_props n fs)

    -- `toBytes`, with `stableStringify`.
    unfoldable pub to_bytes : (Value F → JsString) → Value F → List ℕ
    to_bytes stringify (bytes bs) = bs
    to_bytes stringify (array_buffer bs) = bs
    to_bytes stringify (text s) = utf8_encode s
    to_bytes stringify v = utf8_encode (stringify (sort_deep 32 v))

  abbrev pub sized : JsString → ℕ → Value F
  sized name n = text (name ++ (60 ∷ (decimal n ++ (62 ∷ []))))

  -- `summarizeShape`, by the depth that is left.
  unfoldable mutual
    unfolding count_values

    pub summarize_shape : ℕ → Value F → Value F
    summarize_shape n undefined = text (ascii "undefined")
    summarize_shape n null = text (ascii "null")
    summarize_shape n (boolean b) = text (ascii "boolean")
    summarize_shape n (number x) = text (ascii "number")
    summarize_shape n (text s) = text (ascii "string")
    summarize_shape n (bigint s) = text (ascii "bigint")
    summarize_shape n function = text (ascii "function")
    summarize_shape n (bytes bs) = sized (ascii "bytes") (length bs)
    summarize_shape n (array_buffer bs) = sized (ascii "bytes") (length bs)
    summarize_shape n (array vs) = sized (ascii "Array") (count_values vs)
    summarize_shape zero (object fs) = text (ascii "object")
    summarize_shape (suc n) (object fs) = object (shape_props n fs)

    pub shape_props : ℕ → Props F → Props F
    shape_props n end = end
    shape_props n (field k v fs) = field k (summarize_shape n v) (shape_props n fs)

pub record Redactor : Type 0 where
  pub body_allowlist : List JsString
  pub body_fields : List JsString
  pub ciphertext_fields : List JsString
  pub peer_fields : List JsString
  pub text_fields : List JsString
  pub url_fields : List JsString
  pub max_shape_depth : ℕ

-- The constructor's defaults, with an allowlist of methods.
abbrev pub default_redactor : List JsString → Redactor
default_redactor allowlist = record {
  body_allowlist = allowlist;
  body_fields =
      ascii "body"
      ∷ ascii "payload"
      ∷ ascii "data"
      ∷ ascii "args"
      ∷ ascii "response"
      ∷ ascii "item"
      ∷ [];
  ciphertext_fields = ascii "ciphertext" ∷ ascii "cipher" ∷ ascii "encrypted" ∷ ascii "enc" ∷ [];
  peer_fields = ascii "peerId" ∷ ascii "peer" ∷ ascii "src" ∷ ascii "dst" ∷ ascii "unanswered" ∷ [];
  text_fields = ascii "reason" ∷ ascii "error" ∷ [];
  url_fields = ascii "url" ∷ [];
  max_shape_depth = 4;
}

-- `allowsBody` of `row.method`.
unfoldable pub allows_body : {F : Type 0} → Redactor → Option (Value F) → Bool
allows_body r (some (text method)) = set_has same method r.body_allowlist
allows_body r v = false

unfoldable pub hash_peer : PeerRegistry → JsString → Option (PeerRegistry × JsString)
hash_peer reg peer =
    if is_same peer broadcast
    then some (reg, broadcast)
    else elim (handle_for reg peer) [ none ↦ none | some (reg', h) ↦ some (reg', ascii "ph_" ++ h) ]

-- `hashed.startsWith('ph_') ? hashed.slice(3) : hashed`.
unfoldable pub strip_prefix : JsString → JsString
strip_prefix hashed = if is_same (take 3 hashed) (ascii "ph_") then drop 3 hashed else hashed

unfoldable pub resolve_peer : PeerRegistry → JsString → Option JsString
resolve_peer reg hashed =
    if is_same hashed broadcast then some broadcast else peer_from_handle reg (strip_prefix hashed)

unfoldable pub hash_text : JsString → JsString
hash_text s = ascii "h_" ++ fnv1a_hex (utf8_encode s)

unfoldable pub redact_url : (JsString → Option (JsString × JsString)) → JsString → JsString
redact_url parse_url raw = elim (parse_url raw) [
  | none ↦ ascii "[unparseable-url-redacted]"
  | some (protocol, host) ↦ protocol ++ ascii "//" ++ host
]

-- The first of the lists that a key stands in decides; a URL or a free text is a string.
pub data FieldClass : Type 0 where
  ciphertext_field : FieldClass
  peer_field : FieldClass
  url_field : FieldClass
  text_field : FieldClass
  body_field : FieldClass
  open_field : FieldClass

unfoldable pub is_text : {F : Type 0} → Value F → Bool
is_text (text s) = true
is_text v = false

unfoldable pub is_undefined : {F : Type 0} → Value F → Bool
is_undefined undefined = true
is_undefined v = false

unfoldable pub class_of : {F : Type 0} → Redactor → JsString → Value F → FieldClass
class_of r key v =
    if set_has same key r.ciphertext_fields
    then ciphertext_field
    else if set_has same key r.peer_fields
    then peer_field
    else if set_has same key r.url_fields && is_text v
    then url_field
    else if set_has same key r.text_fields && is_text v
    then text_field
    else if set_has same key r.body_fields
    then body_field
    else open_field

module _ {F : Type 0} where
  unfoldable pub hash_value : Option (PeerRegistry × JsString) → Option (PeerRegistry × Value F)
  hash_value none = none
  hash_value (some (reg, s)) = some (reg, text s)

  -- `redactPeerValue`; `none` is the error of a collision.
  unfoldable mutual
    unfolding hash_value hash_peer

    pub redact_peer_value : PeerRegistry → Value F → Option (PeerRegistry × Value F)
    redact_peer_value reg (text p) = hash_value (hash_peer reg p)
    redact_peer_value reg (array vs) = elim (redact_peer_values reg vs) [
      | none ↦ none
      | some (reg', ws) ↦ some (reg', array ws)
    ]
    redact_peer_value reg v = some (reg, v)

    pub redact_peer_values : PeerRegistry → Values F → Option (PeerRegistry × Values F)
    redact_peer_values reg nil = some (reg, nil)
    redact_peer_values reg (cons v vs) = elim (redact_peer_value reg v) [
      | none ↦ none
      | some (reg', w) ↦ elim (redact_peer_values reg' vs) [
        | none ↦ none
        | some (reg'', ws) ↦ some (reg'', cons w ws)
      ]
    ]

  unfoldable pub redact_string : (JsString → JsString) → Value F → Value F
  redact_string f (text s) = text (f s)
  redact_string f v = v

  module _ (of_byte : ℕ → F) (of_length : ℕ → F) (stringify : Value F → JsString)
      (parse_url : JsString → Option (JsString × JsString)) where
    unfoldable pub summarize_body : Redactor → Value F → Value F
    summarize_body r v =
        let bs = to_bytes of_byte stringify v in
        object (
          field (ascii "byteLength") (number (of_length (length bs))) (
            field (ascii "hash") (text (fnv1a_hex bs))
              (field (ascii "shape") (summarize_shape r.max_shape_depth v) end)))

    unfoldable pub summarize_ciphertext : Value F → Value F
    summarize_ciphertext v =
        let bs = to_bytes of_byte stringify v in
        object (
          field (ascii "byteLength") (number (of_length (length bs))) (
            field (ascii "hash") (text (fnv1a_hex bs))
              (field (ascii "encrypted") (boolean true) end)))

    -- The value of a field, by its class.
    unfoldable pub redact_value :
        Redactor
        → (body_allowed : Bool) → FieldClass
        → PeerRegistry
        → Value F
        → Option (PeerRegistry × Value F)
    redact_value r allowed ciphertext_field reg v = some (reg, summarize_ciphertext v)
    redact_value r allowed peer_field reg v = redact_peer_value reg v
    redact_value r allowed url_field reg v = some (reg, redact_string (redact_url parse_url) v)
    redact_value r allowed text_field reg v = some (reg, redact_string hash_text v)
    redact_value r allowed body_field reg v = some (reg, if allowed then v else summarize_body r v)
    redact_value r allowed open_field reg v = some (reg, v)

    -- `out[key] = ...`, and the fields behind it.
    unfoldable pub keep_field :
        JsString
        → Option (PeerRegistry × Value F)
        → (PeerRegistry → Option (PeerRegistry × Row F))
        → Option (PeerRegistry × Row F)
    keep_field key none rest = none
    keep_field key (some (reg', w)) rest = do (reg'', out) ← rest reg'; some (reg'', (key, w) ∷ out)

    -- The loop of `redact`; a field that is undefined is left out.
    unfoldable pub redact_fields :
        Redactor → Bool → PeerRegistry → Row F → Option (PeerRegistry × Row F)
    redact_fields r allowed reg [] = some (reg, [])
    redact_fields r allowed reg ((key, v) ∷ row) =
        if is_undefined v
        then redact_fields r allowed reg row
        else keep_field key (redact_value r allowed (class_of r key v) reg v)
            (λ reg'. redact_fields r allowed reg' row)

    unfoldable pub redact : Redactor → PeerRegistry → Row F → Option (PeerRegistry × Row F)
    redact r reg row = redact_fields r (allows_body r (map_get same (ascii "method") row)) reg row

    unfoldable pub redact_batch :
        Redactor → PeerRegistry → List (Row F) → Option (PeerRegistry × List (Row F))
    redact_batch r reg [] = some (reg, [])
    redact_batch r reg (row ∷ batch) = do
      (reg', out) ← redact r reg row
      (reg'', outs) ← redact_batch r reg' batch
      some (reg'', out ∷ outs)
