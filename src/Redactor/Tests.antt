-- ===== src/Redactor/Tests.antt =====
-- Runs of the redactor of packages/bare-probe/core/redactor.ts.
use bare_network_inspect.Base.{
  ℕ, ◌≡◌, refl, Option, some, [], ◌∷◌, ◌++◌, JsString, ascii, same, ℕ_discrete, map_get, map_set,
  set_has, inr, arith, All,
}
use bare_network_inspect.Registry.{PeerRegistry, handle_of, handle_for, collides, is_same}
use bare_network_inspect.Redactor.{
  Value, Row, number, text, default_redactor, allows_body, class_of, is_text, is_undefined, redact,
  redact_fields, redact_value, redact_peer_value, hash_value, hash_peer, redact_string, redact_url,
  keep_field, summarize_body, resolve_peer,
}
use bare_network_inspect.Redactor.Safe.{ArePeers, IsTypedField}
use bare_network_inspect.Redactor.Rows.{AreHidden, redact-AreHidden}
use bare_network_inspect.Redactor.Resolve.{resolve_peer-hash_peer}

abbrev empty : PeerRegistry
empty = record { by_handle = []; by_hash = [] }

abbrev after : PeerRegistry
after = record { by_handle = (handle_of (ascii "a"), ascii "a") ∷ []; by_hash = [] }

abbrev itself : ℕ → ℕ
itself n = n

-- A printer that shows nothing, and a parser that knows one URL.
abbrev stringify : Value ℕ → JsString
stringify v = ascii "{}"

abbrev parse_url : JsString → Option (JsString × JsString)
parse_url raw = some (ascii "wss:", ascii "host")

abbrev row : Row ℕ
row =
    (ascii "src", text (ascii "a"))
    ∷ (ascii "url", text (ascii "wss://host/token"))
    ∷ (ascii "body", number 7)
    ∷ (ascii "t", number 3)
    ∷ []

abbrev exported : Row ℕ
exported =
    (ascii "src", text (ascii "ph_" ++ handle_of (ascii "a")))
    ∷ (ascii "url", text (ascii "wss://host"))
    ∷ (
      ascii "body",
      summarize_body itself itself stringify parse_url (default_redactor []) (number 7),
    )
    ∷ (ascii "t", number 3)
    ∷ []

exported_lem :
    redact itself itself stringify parse_url (default_redactor []) empty row
    ≡ some (after, exported)
unfolding redact redact_fields redact_value redact_peer_value hash_value hash_peer handle_for
    collides redact_string redact_url keep_field allows_body class_of is_text is_undefined map_get
    map_set set_has is_same same ℕ_discrete
exported_lem = refl

row-IsTypedField : All (IsTypedField (default_redactor [])) row
unfolding is_text is_undefined set_has same ℕ_discrete ArePeers
row-IsTypedField = (
  inr ((λ e. tt), ((λ e. refl), (λ e. refl))),
  (
    inr ((λ e. tt), ((λ e. refl), (λ e. refl))),
    (
      inr ((λ e. ground arith), ((λ e. ground arith), (λ e. ground arith))),
      (inr ((λ e. ground arith), ((λ e. ground arith), (λ e. ground arith))), tt),
    ),
  ),
)

redact-AreHidden_example :
    AreHidden itself itself stringify parse_url
      (default_redactor [])
      (allows_body (default_redactor []) (map_get same (ascii "method") row))
      row
      exported
redact-AreHidden_example =
    redact-AreHidden itself itself stringify parse_url (default_redactor []) empty after row
      exported row-IsTypedField exported_lem

hash_lem : hash_peer empty (ascii "a") ≡ some (after, ascii "ph_" ++ handle_of (ascii "a"))
unfolding hash_peer handle_for collides map_get map_set is_same same ℕ_discrete
hash_lem = refl

resolve_peer-hash_peer_example :
    resolve_peer after (ascii "ph_" ++ handle_of (ascii "a")) ≡ some (ascii "a")
resolve_peer-hash_peer_example =
    resolve_peer-hash_peer empty after (ascii "a") (ascii "ph_" ++ handle_of (ascii "a")) hash_lem
