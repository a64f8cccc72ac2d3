-- ===== src/Adapter/Stats/Pick.antt =====
-- The candidate pair that the normaliser of `getStats` picks is one of the best.
use bare_network_inspect.Base.{
  ℕ, ◌≤◌, ◌≡◌, refl, ap, arith, Bool, true, false, none, some, inl, inr, List, [], ◌∷◌, All,
  if◌then◌else◌, Option-cases, Bool-cases,
}
use bare_network_inspect.Adapter.Stats.{
  StatEntry, filter, find, first, or_else, is_pair, is_selected, is_nominated, pick_candidate_pair,
}

module _ {ℓ} {A : Type ℓ} where
  find_miss : (p : A → Bool) (xs : List A) → find p xs ≡ none → All (λ x. p x ≡ false) xs
  unfolding find
  find_miss p [] h = tt
  find_miss p (x ∷ xs) h = (ground arith, find_miss p xs (ground arith))

  find_hit : (p : A → Bool) (xs : List A) (x : A) → find p xs ≡ some x → p x ≡ true
  unfolding find
  find_hit p [] x h = absurd (ground arith)
  find_hit p (y ∷ ys) x h = ground (arith, find_hit p ys x, ap p {x = x} {y = y})

  All-if :
      (P : A → Type 0) (b : Bool) (x : A) (xs : List A)
      → (b ≡ false → P x)
      → All P (if b then x ∷ xs else xs)
      → P x × All P xs
  All-if P true x xs h k = k
  All-if P false x xs h k = (h refl, k)

  -- What holds of the passing elements, and of those that do not pass, holds of all.
  All-filter :
      (P : A → Type 0) (p : A → Bool) (xs : List A)
      → ((x : A) → p x ≡ false → P x)
      → All P (filter p xs)
      → All P xs
  unfolding filter
  All-filter P p [] h k = tt
  All-filter P p (x ∷ xs) h k =
      let (u, v) = All-if P (p x) x (filter p xs) (h x) k in (u, All-filter P p xs h v)

  filter-All : (p : A → Bool) (xs : List A) → All (λ x. p x ≡ true) (filter p xs)
  unfolding filter
  filter-All p [] = tt
  filter-All p (x ∷ xs) = elim (Bool-cases (p x)) [
    | inl e ↦ rw e (e, filter-All p xs)
    | inr e ↦ rw e (filter-All p xs)
  ]

  All-map : (P Q : A → Type 0) (xs : List A) → ((x : A) → P x → Q x) → All P xs → All Q xs
  All-map P Q [] h k = tt
  All-map P Q (x ∷ xs) h k = (h x k.0, All-map P Q xs h k.1)

  All-both : (P Q : A → Type 0) (xs : List A) → All P xs → All Q xs → All (λ x. P x × Q x) xs
  All-both P Q [] h k = tt
  All-both P Q (x ∷ xs) h k = ((h.0, k.0), All-both P Q xs h.1 k.1)

  find-All :
      (P : A → Type 0) (p : A → Bool) (xs : List A) (x : A) → All P xs → find p xs ≡ some x → P x
  unfolding find
  find-All P p [] x k h = absurd (ground arith)
  find-All P p (y ∷ ys) x k h = elim (Bool-cases (p y)) [
    | inl e ↦ let q : y ≡ x = ground arith in rw (← q) k.0
    | inr e ↦ find-All P p ys x k.1 (ground arith)
  ]

  first-All : (P : A → Type 0) (xs : List A) (x : A) → All P xs → first xs ≡ some x → P x
  unfolding first
  first-All P [] x k h = absurd (ground arith)
  first-All P (y ∷ ys) x k h = let q : y ≡ x = ground arith in rw (← q) k.0

module _ {N : Type 0} where
  -- A selected pair counts most, then a nominated one that succeeded, then any; other entries count 0.
  abbrev pub rank : StatEntry N → ℕ
  rank e = if is_pair e then (if is_selected e then 3 else if is_nominated e then 2 else 1) else 0

  ranked :
      (entries : List (StatEntry N)) (n : ℕ)
      → All (λ e. rank e ≤ n) (filter is_pair entries)
      → All (λ e. rank e ≤ n) entries
  ranked entries n k = All-filter (λ e. rank e ≤ n) is_pair entries (λ e h. ground arith) k

  -- The pair that is picked is a candidate pair, and no entry of the report ranks higher: a selected
  -- pair counts most, then a nominated one that succeeded, then any pair.
  pub pick_candidate_pair_best :
      (entries : List (StatEntry N)) (pair : StatEntry N)
      → pick_candidate_pair entries ≡ some pair
      → (is_pair pair ≡ true) × All (λ e. rank e ≤ rank pair) entries
  unfolding pick_candidate_pair or_else
  pick_candidate_pair_best entries pair h =
      let pairs = filter is_pair entries in
      let passed = filter-All is_pair entries in
      let Passed : StatEntry N → Type 0 = λ e. is_pair e ≡ true in
      elim (Option-cases (find is_selected pairs)) [
        | inr (p, e) ↦
            let q : p ≡ pair = ground arith in
            let b = find-All Passed is_selected pairs p passed e in
            let c = find_hit is_selected pairs p e in
            let r : rank p ≡ 3 = ground arith in
            let k =
              ranked entries 3
                (All-map Passed (λ e. rank e ≤ 3) pairs (λ x u. ground arith) passed) in
            rw (← q) (b, rw r k)
        | inl e ↦ elim (Option-cases (find is_nominated pairs)) [
          | inr (p, g) ↦
              let q : p ≡ pair = ground arith in
              let b = find-All Passed is_nominated pairs p passed g in
              let c = find_hit is_nominated pairs p g in
              let u =
                find-All (λ x. is_selected x ≡ false) is_nominated pairs p
                  (find_miss is_selected pairs e) g in
              let r : rank p ≡ 2 = ground arith in
              let k = ranked entries 2 (
                All-map (λ x. is_selected x ≡ false) (λ e. rank e ≤ 2) pairs (λ x v. ground arith)
                  (find_miss is_selected pairs e)) in
              rw (← q) (b, rw r k)
          | inl g ↦
              let first_is : first pairs ≡ some pair = ground arith in
              let b = first-All Passed pairs pair passed first_is in
              let u =
                All-both (λ x. is_selected x ≡ false) (λ x. is_nominated x ≡ false) pairs
                  (find_miss is_selected pairs e) (find_miss is_nominated pairs g) in
              let v =
                first-All (λ x. (is_selected x ≡ false) × (is_nominated x ≡ false)) pairs pair u
                  first_is in
              let r : rank pair ≡ 1 = ground (arith, v.0, v.1) in
              let k = ranked entries 1 (
                All-map (λ x. (is_selected x ≡ false) × (is_nominated x ≡ false)) (λ e. rank e ≤ 1)
                  pairs (λ x v. ground (arith, v.0, v.1)) u) in
              (b, rw r k)
        ]
      ]
