-- ===== src/Version/Negotiation.antt =====
-- Which version negotiate of version.ts picks.
use bare_network_inspect.Base.{ℕ, ◌≤◌, min, ◌≡◌, some, arith}
use bare_network_inspect.Version.{VersionRange, negotiate}

-- A build with the range `r` speaks the version `n`.
abbrev pub Speaks : VersionRange → ℕ → Type 0
Speaks r n = (r.vmin ≤ n) × (n ≤ r.vmax)

-- Where two builds have a version `m` in common, both sides compute the same version, which both
-- speak, and it is no lower than `m`.
pub negotiate_highest :
    (a b : VersionRange) (m : ℕ)
    → Speaks a m
    → Speaks b m
    → (n : ℕ) × (negotiate a b ≡ some n)
      × (negotiate b a ≡ some n)
      × Speaks a n
      × Speaks b n
      × (m ≤ n)
unfolding negotiate
negotiate_highest a b m p q =
    (min a.vmax b.vmax, ground arith, ground arith, omega arith, omega arith, omega arith)

-- A version that comes out of a negotiation is spoken by both sides.
pub negotiate-Speaks :
    (a b : VersionRange) (n : ℕ) → negotiate a b ≡ some n → Speaks a n × Speaks b n
unfolding negotiate
negotiate-Speaks a b n e = ground arith
