-- ===== src/RingBuffer/Tests.antt =====
-- Runs of the ring of ring-buffer.ts.
use bare_network_inspect.Base.{ℕ, ◌≡◌, refl, false, none, some, [], ◌∷◌, ltb}
use bare_network_inspect.RingBuffer.{
  RingBuffer, new, push, collect, to_array, push_all, find, find_from,
}
use bare_network_inspect.RingBuffer.Refine.{Holds, new-Holds, push_all-Holds}

abbrev fresh : RingBuffer ℕ
fresh = record { capacity = 2; dropped = 0; buf = none ∷ none ∷ []; head = 0; count = 0 }

wraps : to_array (push_all fresh (1 ∷ 2 ∷ 3 ∷ [])) ≡ some 2 ∷ some 3 ∷ []
unfolding to_array push_all push collect
wraps = refl

counts_drops : (push_all fresh (1 ∷ 2 ∷ 3 ∷ [])).dropped ≡ 1
unfolding push_all push
counts_drops = refl

refused : new {A = ℕ} 0 ≡ none
unfolding new
refused = refl

finds_oldest :
    find (λ x i. elim x [ none ↦ false | some n ↦ ltb 1 n ]) (push_all fresh (1 ∷ 2 ∷ 3 ∷ []))
    ≡ some (some 2)
unfolding find find_from to_array push_all push collect
finds_oldest = refl

fresh-Holds : Holds fresh 2 0 []
unfolding new
fresh-Holds = new-Holds 2 refl

push_all-Holds_example : Holds (push_all fresh (1 ∷ 2 ∷ 3 ∷ [])) 2 0 (1 ∷ 2 ∷ 3 ∷ [])
push_all-Holds_example = push_all-Holds (1 ∷ 2 ∷ 3 ∷ []) fresh-Holds
