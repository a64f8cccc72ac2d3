-- ===== src/Redactor/Safe.antt =====
-- What a redacted row shows of the row.
use bare_network_inspect.Base.{
  ℕ, zero, suc, ◌≡◌, refl, arith, ◌⊎◌, inl, inr, true, some, ◌++◌, length, JsString, ascii, same,
  set_has, Option-cases,
}
use bare_network_inspect.Hlc.{decimal}
use bare_network_inspect.Registry.{PeerRegistry, broadcast, handle_of, handle_for, is_same}
use bare_network_inspect.Redactor.{
  Value, Values, Props, undefined, null, boolean, number, text, bigint, function, bytes,
  array_buffer, array, object, nil, cons, end, field, summarize_shape, shape_props, count_values,
  Redactor, is_text, is_undefined, hash_peer, hash_value, redact_peer_value, redact_peer_values,
}

-- The names of types, and sizes.
abbrev pub IsTypeName : JsString → Type 0
IsTypeName s =
    (s ≡ ascii "undefined")
    ⊎ (s ≡ ascii "null")
    ⊎ (s ≡ ascii "boolean")
    ⊎ (s ≡ ascii "number")
    ⊎ (s ≡ ascii "string")
    ⊎ (s ≡ ascii "bigint")
    ⊎ (s ≡ ascii "function")
    ⊎ (s ≡ ascii "object")

abbrev pub IsSize : JsString → Type 0
IsSize s =
    (n : ℕ) × ((s ≡ ascii "bytes<" ++ (decimal n ++ ascii ">"))
      ⊎ (s ≡ ascii "Array<" ++ (decimal n ++ ascii ">")))

hash_peer-cases :
    (reg reg' : PeerRegistry) (p s : JsString)
    → hash_peer reg p ≡ some (reg', s)
    → ((p ≡ broadcast) × (s ≡ broadcast)) ⊎ (s ≡ ascii "ph_" ++ handle_of p)
unfolding hash_peer handle_for is_same
hash_peer-cases reg reg' p s h = ground arith

module _ {F : Type 0} where
  -- A shape without a value of the app: type names, sizes, and objects of those.
  mutual
    pub IsShape : Value F → Type 0
    IsShape (text s) = IsTypeName s ⊎ IsSize s
    IsShape (object fs) = AreShapes fs
    IsShape v = ⊥

    pub AreShapes : Props F → Type 0
    AreShapes end = Unit {0}
    AreShapes (field k v fs) = IsShape v × AreShapes fs

  -- Peers as the code's rows carry them: strings, and arrays of peers.
  unfoldable mutual
    pub ArePeers : Value F → Type 0
    ArePeers (text s) = Unit {0}
    ArePeers (array vs) = AreAllPeers vs
    ArePeers v = ⊥

    pub AreAllPeers : Values F → Type 0
    AreAllPeers nil = Unit {0}
    AreAllPeers (cons v vs) = ArePeers v × AreAllPeers vs

  -- A field as the code's rows type it: left out, or with peers where it is for peers, and with a string
  -- where it is for a URL or for free text.
  abbrev pub IsTypedField : Redactor → JsString × Value F → Type 0
  IsTypedField r (key, v) =
      (is_undefined v ≡ true)
      ⊎ ((set_has same key r.peer_fields ≡ true → ArePeers v)
          × ((set_has same key r.url_fields ≡ true → is_text v ≡ true)
              × (set_has same key r.text_fields ≡ true → is_text v ≡ true)))

  -- Each peer as its hash, and the broadcast as itself, also in arrays, and nothing else.
  mutual
    pub HidesPeers : Value F → Value F → Type 0
    HidesPeers (text p) (text s) =
        ((p ≡ broadcast) × (s ≡ broadcast)) ⊎ (s ≡ ascii "ph_" ++ handle_of p)
    HidesPeers (array vs) (array ws) = HideAllPeers vs ws
    HidesPeers v w = ⊥

    pub HideAllPeers : Values F → Values F → Type 0
    HideAllPeers nil nil = Unit {0}
    HideAllPeers (cons v vs) (cons w ws) = HidesPeers v w × HideAllPeers vs ws
    HideAllPeers vs ws = ⊥

  mutual
    unfolding summarize_shape IsShape AreShapes

    pub IsShape-summarize_shape : (n : ℕ) (v : Value F) → IsShape (summarize_shape n v)
    IsShape-summarize_shape n undefined = inl (inl refl)
    IsShape-summarize_shape n null = inl (inr (inl refl))
    IsShape-summarize_shape n (boolean b) = inl (inr (inr (inl refl)))
    IsShape-summarize_shape n (number x) = inl (inr (inr (inr (inl refl))))
    IsShape-summarize_shape n (text s) = inl (inr (inr (inr (inr (inl refl)))))
    IsShape-summarize_shape n (bigint s) = inl (inr (inr (inr (inr (inr (inl refl))))))
    IsShape-summarize_shape n function = inl (inr (inr (inr (inr (inr (inr (inl refl)))))))
    IsShape-summarize_shape n (bytes bs) = inr (length bs, inl refl)
    IsShape-summarize_shape n (array_buffer bs) = inr (length bs, inl refl)
    IsShape-summarize_shape n (array vs) = inr (count_values vs, inr refl)
    IsShape-summarize_shape zero (object fs) = inl (inr (inr (inr (inr (inr (inr (inr refl)))))))
    IsShape-summarize_shape (suc n) (object fs) = AreShapes-shape_props n fs

    AreShapes-shape_props : (n : ℕ) (fs : Props F) → AreShapes (shape_props n fs)
    AreShapes-shape_props n end = tt
    AreShapes-shape_props n (field k v fs) =
        (IsShape-summarize_shape n v, AreShapes-shape_props n fs)

  mutual
    unfolding redact_peer_value ArePeers AreAllPeers HidesPeers HideAllPeers hash_value

    pub HidesPeers-redact_peer_value :
        (reg reg' : PeerRegistry) (v w : Value F)
        → ArePeers v
        → redact_peer_value reg v ≡ some (reg', w)
        → HidesPeers v w
    HidesPeers-redact_peer_value reg reg' (text p) w a h = elim (Option-cases (hash_peer reg p)) [
      | inl e ↦ absurd (ground arith)
      | inr ((r, s), e) ↦
          let q : text s ≡ w = ground arith in rw (← q) (hash_peer-cases reg r p s e)
    ]
    HidesPeers-redact_peer_value reg reg' (array vs) w a h =
        elim (Option-cases (redact_peer_values reg vs)) [
          | inl e ↦ absurd (ground arith)
          | inr ((r, ws), e) ↦
              let q : array ws ≡ w = ground arith in
              rw (← q) (HideAllPeers-redact_peer_values reg r vs ws a e)
        ]
    HidesPeers-redact_peer_value reg reg' undefined w a h = absurd a
    HidesPeers-redact_peer_value reg reg' null w a h = absurd a
    HidesPeers-redact_peer_value reg reg' (boolean b) w a h = absurd a
    HidesPeers-redact_peer_value reg reg' (number x) w a h = absurd a
    HidesPeers-redact_peer_value reg reg' (bigint s) w a h = absurd a
    HidesPeers-redact_peer_value reg reg' function w a h = absurd a
    HidesPeers-redact_peer_value reg reg' (bytes bs) w a h = absurd a
    HidesPeers-redact_peer_value reg reg' (array_buffer bs) w a h = absurd a
    HidesPeers-redact_peer_value reg reg' (object fs) w a h = absurd a

    HideAllPeers-redact_peer_values :
        (reg reg' : PeerRegistry) (vs ws : Values F)
        → AreAllPeers vs
        → redact_peer_values reg vs ≡ some (reg', ws)
        → HideAllPeers vs ws
    HideAllPeers-redact_peer_values reg reg' nil ws a h =
        let q : nil ≡ ws = ground arith in rw (← q) tt
    HideAllPeers-redact_peer_values reg reg' (cons v vs) ws a h =
        elim (Option-cases (redact_peer_value reg v)) [
          | inl e ↦ absurd (ground arith)
          | inr ((r, w), e) ↦ elim (Option-cases (redact_peer_values r vs)) [
            | inl g ↦ absurd (ground arith)
            | inr ((r', us), g) ↦
                let q : cons w us ≡ ws = ground arith in
                rw (← q) (
                  HidesPeers-redact_peer_value reg r v w a.0 e,
                  HideAllPeers-redact_peer_values r r' vs us a.1 g,
                )
          ]
        ]
