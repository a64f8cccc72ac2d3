-- ===== src/Redactor/Rows.antt =====
-- What leaves the device of a row that is redacted.
use mathlib.Core.Path.{subst}
use bare_network_inspect.Base.{
  ℕ, ◌≡◌, refl, arith, ◌⊎◌, inl, inr, Bool, true, false, Option, none, some, List, [], ◌∷◌, ◌++◌,
  length, if◌then◌else◌, JsString, ascii, Option-cases, same, map_get, set_has, All,
}
use bare_network_inspect.Registry.{PeerRegistry}
use bare_network_inspect.Utf8.{utf8_encode}
use bare_network_inspect.Redactor.{
  Value, Row, boolean, number, text, object, end, field, summarize_shape, fnv1a_hex, to_bytes,
  Redactor, allows_body, hash_text, redact_url, FieldClass, ciphertext_field, peer_field, url_field,
  text_field, body_field, open_field, is_text, is_undefined, class_of, redact_string,
  summarize_body, summarize_ciphertext, redact_value, keep_field, redact_fields, redact,
}
use bare_network_inspect.Redactor.Safe.{
  IsShape, ArePeers, IsTypedField, HidesPeers, IsShape-summarize_shape,
  HidesPeers-redact_peer_value,
}

module _ {F : Type 0} (of_byte : ℕ → F) (of_length : ℕ → F) (stringify : Value F → JsString)
    (parse_url : JsString → Option (JsString × JsString)) where
  -- The protocol and the host that `new URL` finds in a text, or the mark of an unreadable one.
  abbrev pub IsHost : Value F → Value F → Type 0
  IsHost v w =
      (raw : JsString) × ((v ≡ text raw)
        × (((parse_url raw ≡ none) × (w ≡ text (ascii "[unparseable-url-redacted]")))
            ⊎ ((protocol host : JsString) × (parse_url raw ≡ some (protocol, host))
                × (w ≡ text (protocol ++ ascii "//" ++ host)))))

  abbrev bytes_of : Value F → List ℕ
  bytes_of v = to_bytes of_byte stringify v

  -- What may be exported for the value of a field of each class.
  abbrev pub IsHidden : Bool → FieldClass → Value F → Value F → Type 0
  IsHidden allowed ciphertext_field v w =
      w
      ≡ object (
          field (ascii "byteLength") (number (of_length (length (bytes_of v)))) (
            field (ascii "hash") (text (fnv1a_hex (bytes_of v)))
              (field (ascii "encrypted") (boolean true) end)))
  IsHidden allowed peer_field v w = HidesPeers v w
  IsHidden allowed url_field v w = IsHost v w
  IsHidden allowed text_field v w =
      (s : JsString) × ((v ≡ text s) × (w ≡ text (ascii "h_" ++ fnv1a_hex (utf8_encode s))))
  IsHidden allowed body_field v w =
      ((allowed ≡ true) × (w ≡ v))
      ⊎ ((shape : Value F) × (IsShape shape
            × (w
                ≡ object (
                    field (ascii "byteLength") (number (of_length (length (bytes_of v)))) (
                      field (ascii "hash") (text (fnv1a_hex (bytes_of v)))
                        (field (ascii "shape") shape end))))))
  IsHidden allowed open_field v w = w ≡ v

  -- What the lists of a redactor ask of the exported value `w` for `v`; the earlier list decides.
  pub record HidesField (r : Redactor) (allowed : Bool) (key : JsString) (v w : Value F)
      : Type 0 where
    pub ciphertext :
        set_has same key r.ciphertext_fields ≡ true → IsHidden allowed ciphertext_field v w
    pub peer :
        set_has same key r.ciphertext_fields ≡ false
        → set_has same key r.peer_fields ≡ true
        → HidesPeers v w
    pub url :
        set_has same key r.ciphertext_fields ≡ false
        → set_has same key r.peer_fields ≡ false
        → set_has same key r.url_fields ≡ true
        → IsHost v w
    pub reason :
        set_has same key r.ciphertext_fields ≡ false
        → set_has same key r.peer_fields ≡ false
        → set_has same key r.url_fields ≡ false
        → set_has same key r.text_fields ≡ true
        → IsHidden allowed text_field v w
    pub body :
        set_has same key r.ciphertext_fields ≡ false
        → set_has same key r.peer_fields ≡ false
        → set_has same key r.url_fields ≡ false
        → set_has same key r.text_fields ≡ false
        → set_has same key r.body_fields ≡ true
        → IsHidden allowed body_field v w
    pub other :
        set_has same key r.ciphertext_fields ≡ false
        → set_has same key r.peer_fields ≡ false
        → set_has same key r.url_fields ≡ false
        → set_has same key r.text_fields ≡ false
        → set_has same key r.body_fields ≡ false
        → w ≡ v

  HidesField-class :
      (r : Redactor) (allowed : Bool) (key : JsString) (v w : Value F)
      → (set_has same key r.url_fields ≡ true → is_text v ≡ true)
      → (set_has same key r.text_fields ≡ true → is_text v ≡ true)
      → IsHidden allowed (class_of r key v) v w
      → HidesField r allowed key v w
  unfolding class_of
  HidesField-class r allowed key v w url reason h =
      let to : (c : FieldClass) → class_of r key v ≡ c → IsHidden allowed c v w =
        λ c e. subst (λ (c : FieldClass). IsHidden allowed c v w) e h in
      record {
        ciphertext = λ a. to ciphertext_field (ground arith);
        peer = λ a b. to peer_field (ground arith);
        url = λ a b c. let s = url c in to url_field (ground arith);
        reason = λ a b c d. let s = reason d in to text_field (ground arith);
        body = λ a b c d e. to body_field (ground arith);
        other = λ a b c d e. to open_field (ground arith);
      }

  -- One field of the row, and those behind it: left out, or the first of the output.
  abbrev FieldHidden :
      Redactor → Bool → (skipped : Bool) → JsString → Value F → (Row F → Type 0) → Row F → Type 0
  FieldHidden r allowed true key v rest out = rest out
  FieldHidden r allowed false key v rest [] = ⊥
  FieldHidden r allowed false key v rest ((k, w) ∷ out) =
      (k ≡ key) × HidesField r allowed key v w × rest out

  -- The fields of the output are those of the row that are not undefined, in order, each hidden as the
  -- lists of the redactor ask.
  abbrev pub AreHidden : Redactor → Bool → Row F → Row F → Type 0
  AreHidden r allowed [] [] = Unit {0}
  AreHidden r allowed [] (e ∷ out) = ⊥
  AreHidden r allowed ((key, v) ∷ row) out =
      FieldHidden r allowed (is_undefined v) key v (AreHidden r allowed row) out

  peer_peers :
      (r : Redactor) (key : JsString) (v : Value F)
      → class_of r key v ≡ peer_field
      → set_has same key r.peer_fields ≡ true
  unfolding class_of
  peer_peers r key v h = ground arith

  url_text :
      (r : Redactor) (key : JsString) (v : Value F)
      → class_of r key v ≡ url_field
      → is_text v ≡ true
  unfolding class_of
  url_text r key v h = ground arith

  reason_text :
      (r : Redactor) (key : JsString) (v : Value F)
      → class_of r key v ≡ text_field
      → is_text v ≡ true
  unfolding class_of
  reason_text r key v h = ground arith

  IsHost-redact_url :
      (v : Value F) → is_text v ≡ true → IsHost v (redact_string (redact_url parse_url) v)
  unfolding redact_string redact_url is_text
  IsHost-redact_url (text s) h = elim (Option-cases (parse_url s)) [
    | inl e ↦ (s, (refl, inl (e, ground arith)))
    | inr ((p, host), e) ↦ (s, (refl, inr (p, host, e, ground arith)))
  ]
  IsHost-redact_url v h = absurd (ground arith)

  hashed_text :
      (v : Value F)
      → is_text v ≡ true
      → (s : JsString) × ((v ≡ text s)
          × (redact_string hash_text v ≡ text (ascii "h_" ++ fnv1a_hex (utf8_encode s))))
  unfolding redact_string hash_text is_text
  hashed_text (text s) h = (s, (refl, refl))
  hashed_text v h = absurd (ground arith)

  IsHidden-redact_value :
      (r : Redactor) (allowed : Bool) (c : FieldClass) (reg reg' : PeerRegistry) (v w : Value F)
      → (c ≡ peer_field → ArePeers v)
      → (c ≡ url_field → is_text v ≡ true)
      → (c ≡ text_field → is_text v ≡ true)
      → redact_value of_byte of_length stringify parse_url r allowed c reg v ≡ some (reg', w)
      → IsHidden allowed c v w
  unfolding redact_value summarize_ciphertext summarize_body
  IsHidden-redact_value r allowed ciphertext_field reg reg' v w p u t h = ground arith
  IsHidden-redact_value r allowed peer_field reg reg' v w p u t h =
      HidesPeers-redact_peer_value reg reg' v w (p refl) h
  IsHidden-redact_value r allowed url_field reg reg' v w p u t h =
      let q : redact_string (redact_url parse_url) v ≡ w = ground arith in
      rw (← q) (IsHost-redact_url v (u refl))
  IsHidden-redact_value r allowed text_field reg reg' v w p u t h =
      let q : redact_string hash_text v ≡ w = ground arith in rw (← q) (hashed_text v (t refl))
  IsHidden-redact_value r true body_field reg reg' v w p u t h = inl (refl, ground arith)
  IsHidden-redact_value r false body_field reg reg' v w p u t h = inr (
    summarize_shape r.max_shape_depth v,
    (IsShape-summarize_shape r.max_shape_depth v, ground arith),
  )
  IsHidden-redact_value r allowed open_field reg reg' v w p u t h = ground arith

  AreHidden-redact_fields :
      (r : Redactor) (allowed : Bool) (reg reg' : PeerRegistry) (row out : Row F)
      → All (IsTypedField r) row
      → redact_fields of_byte of_length stringify parse_url r allowed reg row ≡ some (reg', out)
      → AreHidden r allowed row out
  unfolding redact_fields keep_field
  AreHidden-redact_fields r allowed reg reg' [] out ty h =
      let q : [] ≡ out = ground arith in rw (← q) tt
  AreHidden-redact_fields r allowed reg reg' ((key, v) ∷ row) out ty h =
      go (is_undefined v) ty.0 h
        (λ reg reg' out k. AreHidden-redact_fields r allowed reg reg' row out ty.1 k)
    where
      go :
          (b : Bool)
          → (b ≡ true)
            ⊎ ((set_has same key r.peer_fields ≡ true → ArePeers v)
                × ((set_has same key r.url_fields ≡ true → is_text v ≡ true)
                    × (set_has same key r.text_fields ≡ true → is_text v ≡ true)))
          → (if b
              then redact_fields of_byte of_length stringify parse_url r allowed reg row
              else keep_field of_byte of_length stringify parse_url key
                  (redact_value of_byte of_length stringify parse_url r allowed
                    (class_of r key v)
                    reg
                    v)
                  (λ reg'. redact_fields of_byte of_length stringify parse_url r allowed reg' row))
            ≡ some (reg', out)
          → ((reg reg' : PeerRegistry) (out : Row F)
              → redact_fields of_byte of_length stringify parse_url r allowed reg row
                ≡ some (reg', out)
              → AreHidden r allowed row out)
          → FieldHidden r allowed b key v (AreHidden r allowed row) out
      go true y h all = all reg reg' out h
      go false (inl e) h all = absurd (ground arith)
      go false (inr (peers, (url, reason))) h all =
          let first =
            redact_value of_byte of_length stringify parse_url r allowed (class_of r key v) reg v in
          elim (Option-cases first) [
            | inl e ↦ absurd (ground arith)
            | inr ((reg1, w), e) ↦
                elim (Option-cases
                  (redact_fields of_byte of_length stringify parse_url r allowed reg1 row)) [
                    | inl g ↦ absurd (ground arith)
                    | inr ((reg2, rest), g) ↦
                        let q : (key, w) ∷ rest ≡ out = ground arith in
                        rw (← q) (
                          refl,
                          HidesField-class r allowed key v w url reason (
                              IsHidden-redact_value r allowed (class_of r key v) reg reg1 v w
                                (λ c. peers (peer_peers r key v c)) (url_text r key v)
                                (reason_text r key v) e),
                          all reg1 reg2 rest g,
                        )
                  ]
          ]

  -- Of a row whose fields for peers have strings or arrays of peers, and whose fields for URLs and
  -- for free text have strings, nothing leaves but the fields that are not undefined, under their
  -- keys and in order: a ciphertext as its length and hash, each peer as its hash and the
  -- broadcast as itself, a URL as its protocol and host or as a mark that it has none, a free text
  -- as its hash, a body as its length, hash and a shape without values unless the method is
  -- allowed, and any other field as it is.
  pub redact-AreHidden :
      (r : Redactor) (reg reg' : PeerRegistry) (row out : Row F)
      → All (IsTypedField r) row
      → redact of_byte of_length stringify parse_url r reg row ≡ some (reg', out)
      → AreHidden r (allows_body r (map_get same (ascii "method") row)) row out
  unfolding redact
  redact-AreHidden r reg reg' row out ty h =
      AreHidden-redact_fields r (allows_body r (map_get same (ascii "method") row)) reg reg' row out
        ty h
