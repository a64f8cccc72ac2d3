-- ===== src/Ulid/Digits.antt =====
-- Numbers and their digits in a base, as the loops of ulid.ts compute them.
use bare_network_inspect.Base.{
  ℕ, zero, suc, ◌+◌, ◌*◌, ◌/◌, ◌%◌, ◌^◌, ◌<◌, ◌≡◌, ap, ◌∙◌, List, [], ◌∷◌, ◌++◌, arith, length, All,
}
use native.Mathlib.Nat.{pow-zero, pow-suc, mul-one}
use bare_network_inspect.Ulid.{from_base, to_base}

-- What the proofs use of a base.
pub record IsBase (base : ℕ) : Type 0 where
  pub div_lem : (v d : ℕ) → d < base → (v * base + d) / base ≡ v
  pub mod_lem : (v d : ℕ) → d < base → (v * base + d) % base ≡ d
  pub whole : (v : ℕ) → (v / base) * base + v % base ≡ v
  pub small : (v : ℕ) → v % base < base
  pub below : (v n : ℕ) → v < base ^ suc n → v / base < base ^ n
  pub above : (v d n : ℕ) → d < base → v < n → v * base + d < n * base

pub IsBase-32 : IsBase 32
IsBase-32 = record {
  div_lem = λ v d h. omega arith;
  mod_lem = λ v d h. omega arith;
  whole = λ v. omega arith;
  small = λ v. omega arith;
  below = λ v n h. omega arith;
  above = λ v d n h k. omega arith;
}

pub IsBase-256 : IsBase 256
IsBase-256 = record {
  div_lem = λ v d h. omega arith;
  mod_lem = λ v d h. omega arith;
  whole = λ v. omega arith;
  small = λ v. omega arith;
  below = λ v n h. omega arith;
  above = λ v d n h k. omega arith;
}

module _ (base : ℕ) (b : IsBase base) where
  pub from_base-to_base :
      (n v : ℕ) (acc : List ℕ)
      → v < base ^ n
      → from_base base 0 (to_base base n v acc) ≡ from_base base v acc
  unfolding from_base to_base
  from_base-to_base zero v acc h =
      ap (λ k. from_base base k acc) {x = 0} (omega (arith, pow-zero base))
  from_base-to_base (suc n) v acc h =
      from_base-to_base n (v / base) ((v % base) ∷ acc) (b.below v n h)
      ∙ ap (λ k. from_base base k acc) (b.whole v)

  pub to_base-from_base :
      (ds : List ℕ) (k v : ℕ) (acc : List ℕ)
      → All (λ d. d < base) ds
      → to_base base (length ds + k) (from_base base v ds) acc ≡ to_base base k v (ds ++ acc)
  unfolding from_base to_base
  to_base-from_base [] k v acc h = ap (λ n. to_base base n v acc) {x = 0 + k} {y = k} (omega arith)
  to_base-from_base (d ∷ ds) k v acc h =
      ap (λ n. to_base base n (from_base base (v * base + d) ds) acc) {x = suc (length ds) + k}
        {y = length ds + suc k} (omega arith)
      ∙ to_base-from_base ds (suc k) (v * base + d) acc h.1
      ∙ ap (λ q. to_base base k q ((v * base + d) % base ∷ (ds ++ acc))) (b.div_lem v d h.0)
      ∙ ap (λ q. to_base base k v (q ∷ (ds ++ acc))) (b.mod_lem v d h.0)

  pub length-to_base : (n v : ℕ) (acc : List ℕ) → length (to_base base n v acc) ≡ n + length acc
  unfolding to_base
  length-to_base zero v acc = omega arith
  length-to_base (suc n) v acc = length-to_base n (v / base) ((v % base) ∷ acc) ∙ omega arith

  pub to_base-All :
      (n v : ℕ) (acc : List ℕ)
      → All (λ d. d < base) acc
      → All (λ d. d < base) (to_base base n v acc)
  unfolding to_base
  to_base-All zero v acc h = h
  to_base-All (suc n) v acc h = to_base-All n (v / base) ((v % base) ∷ acc) (b.small v, h)

  pub from_base_below :
      (ds : List ℕ) (v n : ℕ)
      → All (λ d. d < base) ds
      → v < n
      → from_base base v ds < n * base ^ length ds
  unfolding from_base
  from_base_below [] v n h k = simp (pow-zero, mul-one) k
  from_base_below (d ∷ ds) v n h k = grind (
    arith,
    from_base_below ds (v * base + d) (n * base) h.1 (b.above v d n h.0 k),
    pow-suc base (length ds),
  )
