-- ===== src/Observe/Exporter/Delivery.antt =====
-- What the hub receives of the exporter that waits for a stream.
use bare_network_inspect.Base.{
  ℕ, ◌+◌, ◌^◌, ◌<◌, ◌≡◌, refl, sym, ap, ◌∙◌, arith, Option, none, some, List, [], ◌∷◌, ◌++◌, map,
  append-nil, append_assoc, map-append, length, All,
}
use bare_network_inspect.Framing.{encode_frame, fresh, push_all, next_frame}
use bare_network_inspect.Framing.Reassembly.{encode_all, flatten, push_all-encode_all}
use bare_network_inspect.Adapter.{Call, returned}
use bare_network_inspect.Observe.Exporter.{
  Stream, new_stream, Deferred, new_deferred, write_frame, export_event, export_batch,
  export_batches, export_deferred, attach,
}

-- All events of some batches, in order.
abbrev pub events {ℓ} : {A : Type ℓ} → List (List A) → List A
events [] = []
events (es ∷ bs) = es ++ events bs

abbrev written_of : {E : Type 0} → Option (Stream E) → List (List ℕ)
written_of none = []
written_of (some s) = s.written

module _ {E A : Type 0} (encode : A → Call E (List ℕ))
    (write : ℕ → List ℕ → Call E (Unit {0})) where
  -- Batches flushed one after the other.
  abbrev pub export_all : Deferred E A → List (List A) → Deferred E A
  export_all d [] = d
  export_all d (batch ∷ batches) = export_all (export_deferred encode write d batch) batches

  module _ (bytes : A → List ℕ) (h : (a : A) → encode a ≡ returned (bytes a))
      (k : (n : ℕ) (f : List ℕ) → write n f ≡ returned tt) where
    export_event_lem :
        (s : Stream E) (e : A)
        → export_event encode write s e
          ≡ record s { written = s.written ++ (encode_frame (bytes e) ∷ []) }
    unfolding export_event write_frame
    export_event_lem s e =
        ground (arith, h e, k (length s.written + length s.errors) (encode_frame (bytes e)))

    export_batch_lem :
        (s : Stream E) (es : List A)
        → export_batch encode write s es
          ≡ record s { written = s.written ++ map (λ (e : A). encode_frame (bytes e)) es }
    unfolding export_batch
    export_batch_lem s [] =
        ap (λ (w : List (List ℕ)). record s { written = w }) (sym (append-nil s.written))
    export_batch_lem s (e ∷ es) =
        ap (λ (s : Stream E). export_batch encode write s es) (export_event_lem s e)
        ∙ export_batch_lem (record s { written = s.written ++ (encode_frame (bytes e) ∷ []) }) es
        ∙ ap (λ (w : List (List ℕ)). record s { written = w })
            (append_assoc s.written (encode_frame (bytes e) ∷ [])
              (map (λ (e : A). encode_frame (bytes e)) es))

    export_batches_lem :
        (s : Stream E) (bs : List (List A))
        → export_batches encode write s bs
          ≡ record s { written = s.written ++ map (λ (e : A). encode_frame (bytes e)) (events bs) }
    unfolding export_batches export_batch
    export_batches_lem s [] = export_batch_lem s []
    export_batches_lem s (es ∷ bs) =
        ap (λ (s : Stream E). export_batches encode write s bs) (export_batch_lem s es)
        ∙ export_batches_lem
            (record s { written = s.written ++ map (λ (e : A). encode_frame (bytes e)) es }) bs
        ∙ ap (λ (w : List (List ℕ)). record s { written = w })
            (append_assoc s.written (map (λ (e : A). encode_frame (bytes e)) es)
                (map (λ (e : A). encode_frame (bytes e)) (events bs))
              ∙ ap (λ (w : List (List ℕ)). s.written ++ w)
                  (sym (map-append (λ (e : A). encode_frame (bytes e)) es (events bs))))

    buffering :
        (waiting batches : List (List A))
        → export_all (record { live = none; buffered = waiting }) batches
          ≡ record { live = none; buffered = waiting ++ batches }
    unfolding export_deferred
    buffering waiting [] =
        ap (λ (w : List (List A)). record { live = none; buffered = w }) (sym (append-nil waiting))
    buffering waiting (b ∷ bs) =
        buffering (waiting ++ (b ∷ [])) bs
        ∙ ap (λ (w : List (List A)). record { live = none; buffered = w })
            (append_assoc waiting (b ∷ []) bs)

    streaming :
        (s : Stream E) (batches : List (List A))
        → export_all (record { live = some s; buffered = [] }) batches
          ≡ record { live = some (export_batches encode write s batches); buffered = [] }
    unfolding export_deferred export_batches
    streaming s [] = refl
    streaming s (b ∷ bs) = streaming (export_batch encode write s b) bs

    events-append : (xs ys : List (List A)) → events (xs ++ ys) ≡ events xs ++ events ys
    events-append [] ys = refl
    events-append (x ∷ xs) ys =
        ap (λ (w : List A). x ++ w) (events-append xs ys)
        ∙ sym (append_assoc x (events xs) (events ys))

    -- The batches of before a stream is attached and those of after reach it, each event in a frame of
    -- its own, in the order of the calls, if every event can be encoded and no write throws; no batch
    -- is kept.
    pub export_all-attach :
        (before after : List (List A))
        → export_all (attach encode write (export_all new_deferred before) new_stream) after
          ≡ record {
            live = some (record {
              written = map (λ (e : A). encode_frame (bytes e)) (events (before ++ after));
              errors = [];
            });
            buffered = [];
          }
    unfolding attach
    export_all-attach before after =
        ap (λ (d : Deferred E A). export_all (attach encode write d new_stream) after)
          (buffering [] before)
        ∙ streaming (export_batches encode write new_stream before) after
        ∙ ap (λ (s : Stream E). record { live = some s; buffered = [] })
            (ap (λ (s : Stream E). export_batches encode write s after)
                (export_batches_lem new_stream before)
              ∙ export_batches_lem
                  (record {
                    written = map (λ (e : A). encode_frame (bytes e)) (events before);
                    errors = [];
                  })
                  after
              ∙ ap (λ (w : List (List ℕ)). record { written = w; errors = [] })
                  (sym (
                      map-append (λ (e : A). encode_frame (bytes e)) (events before) (events after))
                    ∙ ap (λ (es : List A). map (λ (e : A). encode_frame (bytes e)) es)
                        (sym (events-append before after))))

    flatten-frames :
        (es : List A)
        → flatten (map (λ (e : A). encode_frame (bytes e)) es) ≡ encode_all (map bytes es)
    unfolding flatten encode_all
    flatten-frames [] = refl
    flatten-frames (e ∷ es) = ap (λ (w : List ℕ). encode_frame (bytes e) ++ w) (flatten-frames es)

    All-bytes :
        (es : List A)
        → All (λ (e : A). length (bytes e) < 2 ^ 32) es
        → All (λ m. length m < 2 ^ 32) (map bytes es)
    All-bytes [] a = tt
    All-bytes (e ∷ es) a = (a.0, All-bytes es a.1)

    -- However the hub's connection cuts what was written into chunks, the hub's framer receives the
    -- bytes of every event of before and of after the connection, in order, and nothing else, if every
    -- event can be encoded in less than 2^32 bytes and no write throws.
    pub push_all-attach :
        (before after : List (List A)) (s : Stream E) (chunks : List (List ℕ))
        → All (λ (e : A). length (bytes e) < 2 ^ 32) (events (before ++ after))
        → (export_all (attach encode write (export_all new_deferred before) new_stream) after).live
          ≡ some s
        → flatten chunks ≡ flatten s.written
        → push_all fresh chunks
          ≡ some (record { buffer = []; received = map bytes (events (before ++ after)) })
    push_all-attach before after s chunks small e c =
        let w = ap (λ (d : Deferred E A). d.live) (export_all-attach before after) in
        let es = events (before ++ after) in
        let q : s.written ≡ map (λ (e : A). encode_frame (bytes e)) es =
          ap written_of (sym e ∙ w) in
        push_all-encode_all (map bytes es) chunks [] (All-bytes es small)
          (unfold next_frame in refl)
          (c ∙ ap flatten q ∙ flatten-frames es ∙ sym (append-nil (encode_all (map bytes es))))
