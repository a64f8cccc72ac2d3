-- ===== src/Framing/Tests.antt =====
-- Runs of the framers of framing.ts.
use bare_network_inspect.Base.{ℕ, ◌≡◌, refl, none, some, List, [], ◌∷◌, ◌++◌, arith}
use bare_network_inspect.Framing.Total.{push_total}
use bare_network_inspect.Framing.{
  StreamFramer, encode_frame, next_frame, frames, fresh, push, push_all,
}
use bare_network_inspect.Framing.Reassembly.{flatten, encode_all, push_all-encode_all}

-- The second chunk ends inside the length prefix of the second frame.
abbrev chunks : List (List ℕ)
chunks = (0 ∷ 0 ∷ []) ∷ (0 ∷ 2 ∷ 7 ∷ 8 ∷ 0 ∷ []) ∷ (0 ∷ 0 ∷ 1 ∷ 9 ∷ 0 ∷ []) ∷ []

split_prefix :
    push_all fresh chunks
    ≡ some (record { buffer = 0 ∷ []; received = (7 ∷ 8 ∷ []) ∷ (9 ∷ []) ∷ [] })
unfolding push_all push frames next_frame
split_prefix = refl

push_all-encode_all_example :
    push_all fresh chunks
    ≡ some (record { buffer = 0 ∷ []; received = (7 ∷ 8 ∷ []) ∷ (9 ∷ []) ∷ [] })
unfolding next_frame flatten encode_all encode_frame
push_all-encode_all_example =
    push_all-encode_all ((7 ∷ 8 ∷ []) ∷ (9 ∷ []) ∷ []) chunks (0 ∷ []) (omega arith) refl refl

push_total_example :
    (g : StreamFramer) × ((push fresh (1 ∷ 2 ∷ []) ≡ some g)
      × ((next_frame g.buffer ≡ none) × ((ms : List (List ℕ)) × (g.received ≡ [] ++ ms))))
push_total_example = push_total fresh (1 ∷ 2 ∷ [])
