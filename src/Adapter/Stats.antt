-- ===== src/Adapter/Stats.antt =====
-- packages/bare-probe/adapters/webrtc.ts: the normaliser of `getStats`.
-- An entry of a report is an object of strings, Booleans and numbers; `N` are the numbers, of which the
-- code uses a sum, zero and the product with 1000. A field with another type than the code casts it to
-- is left out of the result, where the code passes it on.
pub mod Pick
use bare_network_inspect.Base.{
  ℕ, Bool, true, false, ◌&&◌, ◌||◌, Option, none, some, List, [], ◌∷◌, if◌then◌else◌, JsString,
  ascii, same, map_get,
}
use bare_network_inspect.Registry.{is_same}

pub data Stat (N : Type 0) : Type 0 where
  text : JsString → Stat N
  flag : Bool → Stat N
  number : N → Stat N
  other : Stat N

abbrev pub StatEntry : Type 0 → Type 0
StatEntry N = List (JsString × Stat N)

-- What `getStats` resolves to.
pub data Report (N : Type 0) : Type 0 where
  nullish : Report N
  array_like : List (StatEntry N) → Report N
  map_like : List (StatEntry N) → Report N
  object_like : List (StatEntry N) → Report N
  primitive : Report N

pub data ContainerShape : Type 0 where
  map_shape : ContainerShape
  array_shape : ContainerShape
  object_shape : ContainerShape
  unknown_shape : ContainerShape

pub record CandidatePairInfo (N : Type 0) : Type 0 where
  pub state : Option JsString
  pub nominated : Option Bool
  pub local_candidate_type : Option JsString
  pub remote_candidate_type : Option JsString
  pub current_round_trip_time_ms : Option N
  pub bytes_sent : Option N
  pub bytes_received : Option N
  pub relayed : Bool

pub record NormalisedStats (N : Type 0) : Type 0 where
  pub candidate_pair : Option (CandidatePairInfo N)
  pub packets_lost : Option N
  pub packets_received : Option N
  pub container_shape : ContainerShape

module _ {ℓ} {A : Type ℓ} where
  -- `filter` and `find` of an array.
  unfoldable pub filter : (A → Bool) → List A → List A
  filter p [] = []
  filter p (x ∷ xs) = let rest = filter p xs in if p x then x ∷ rest else rest

  unfoldable pub find : (A → Bool) → List A → Option A
  find p [] = none
  find p (x ∷ xs) = let rest = find p xs in if p x then some x else rest

  -- `pairs[0]`.
  unfoldable pub first : List A → Option A
  first [] = none
  first (x ∷ xs) = some x

  -- `a ?? b`.
  unfoldable pub or_else : Option A → Option A → Option A
  or_else none b = b
  or_else (some a) b = some a

module _ {N : Type 0} where
  unfoldable pub to_entries : Report N → List (StatEntry N) × ContainerShape
  to_entries nullish = ([], unknown_shape)
  to_entries (array_like es) = (es, array_shape)
  to_entries (map_like es) = (es, map_shape)
  to_entries (object_like es) = (es, object_shape)
  to_entries primitive = ([], unknown_shape)

  unfoldable pub text_of : Option (Stat N) → Option JsString
  text_of (some (text s)) = some s
  text_of v = none

  unfoldable pub flag_of : Option (Stat N) → Option Bool
  flag_of (some (flag b)) = some b
  flag_of v = none

  unfoldable pub number_of : Option (Stat N) → Option N
  number_of (some (number n)) = some n
  number_of v = none

  -- `e[k] === s`, and `e[k] === true`.
  unfoldable pub has_text : JsString → JsString → StatEntry N → Bool
  has_text k s e = elim (text_of (map_get same k e)) [ none ↦ false | some v ↦ is_same v s ]

  unfoldable pub has_flag : JsString → StatEntry N → Bool
  has_flag k e = elim (flag_of (map_get same k e)) [ none ↦ false | some b ↦ b ]

  unfoldable pub is_pair : StatEntry N → Bool
  is_pair e = has_text (ascii "type") (ascii "candidate-pair") e

  unfoldable pub is_selected : StatEntry N → Bool
  is_selected e = has_flag (ascii "selected") e

  unfoldable pub is_nominated : StatEntry N → Bool
  is_nominated e =
      has_flag (ascii "nominated") e
      && (has_text (ascii "state") (ascii "succeeded") e
          || has_text (ascii "state") (ascii "completed") e)

  unfoldable pub pick_candidate_pair : List (StatEntry N) → Option (StatEntry N)
  pick_candidate_pair entries =
      let pairs = filter is_pair entries in
      or_else (find is_selected pairs) (or_else (find is_nominated pairs) (first pairs))

  -- `e.type === kind && e.id === id`, where both ids may be undefined.
  unfoldable pub is_candidate : JsString → Option JsString → StatEntry N → Bool
  is_candidate kind id e =
      has_text (ascii "type") kind e && elim (text_of (map_get same (ascii "id") e)) [
        | none ↦ elim id [ none ↦ true | some i ↦ false ]
        | some v ↦ elim id [ none ↦ false | some i ↦ is_same v i ]
      ]

  -- The type of a candidate: of its own entry, or else of the pair.
  unfoldable pub candidate_type :
      (kind id_key type_key : JsString) → List (StatEntry N) → StatEntry N → Option JsString
  candidate_type kind id_key type_key entries pair =
      let found = find (is_candidate kind (text_of (map_get same id_key pair))) entries in
      let own = text_of (map_get same type_key pair) in
      elim found [
        | none ↦ own
        | some c ↦ or_else (text_of (map_get same (ascii "candidateType") c)) own
      ]

unfoldable pub is_relay : Option JsString → Bool
is_relay none = false
is_relay (some s) = is_same s (ascii "relay")

module _ {N : Type 0} (zero : N) (plus : N → N → N) (to_ms : N → N) where
  unfoldable pub pair_info : List (StatEntry N) → StatEntry N → CandidatePairInfo N
  pair_info entries pair =
      let local =
        candidate_type (ascii "local-candidate") (ascii "localCandidateId")
          (ascii "localCandidateType") entries pair in
      let rtt =
        or_else (number_of (map_get same (ascii "currentRoundTripTime") pair))
          (number_of (map_get same (ascii "roundTripTime") pair)) in
      record {
        state = text_of (map_get same (ascii "state") pair);
        nominated = flag_of (map_get same (ascii "nominated") pair);
        local_candidate_type = local;
        remote_candidate_type =
            candidate_type (ascii "remote-candidate") (ascii "remoteCandidateId")
              (ascii "remoteCandidateType") entries pair;
        current_round_trip_time_ms = elim rtt [ none ↦ none | some s ↦ some (to_ms s) ];
        bytes_sent = number_of (map_get same (ascii "bytesSent") pair);
        bytes_received = number_of (map_get same (ascii "bytesReceived") pair);
        relayed = is_relay local;
      }

  -- `total = (total ?? 0) + e[key]`, for a number under the key.
  unfoldable pub add_packets : Option N → Option N → Option N
  add_packets total none = total
  add_packets none (some n) = some (plus zero n)
  add_packets (some m) (some n) = some (plus m n)

  -- The loop over the entries, for one of the two counts.
  unfoldable pub sum_packets : JsString → Option N → List (StatEntry N) → Option N
  sum_packets key total [] = total
  sum_packets key total (e ∷ es) =
      let total' = add_packets total (number_of (map_get same key e)) in
      sum_packets key (if has_text (ascii "type") (ascii "inbound-rtp") e then total' else total) es

  unfoldable pub extract_relevant : Report N → NormalisedStats N
  extract_relevant report =
      let entries = (to_entries report).0 in
      record {
        candidate_pair = elim (pick_candidate_pair entries) [
          | none ↦ none
          | some pair ↦ some (pair_info entries pair)
        ];
        packets_lost = sum_packets (ascii "packetsLost") none entries;
        packets_received = sum_packets (ascii "packetsReceived") none entries;
        container_shape = (to_entries report).1;
      }
