-- ===== src/Envelope/Kinds.antt =====
-- The integers of the kinds in envelope.ts.
use bare_network_inspect.Base.{ℕ, zero, suc, ◌≡◌, refl, some, arith}
use bare_network_inspect.Envelope.{Kind, req, res, event, ack, err, kind_to_int, int_to_kind}

-- A kind is read back from its integer.
pub int_to_kind-kind_to_int : (k : Kind) → int_to_kind (kind_to_int k) ≡ some k
unfolding int_to_kind kind_to_int
int_to_kind-kind_to_int req = refl
int_to_kind-kind_to_int res = refl
int_to_kind-kind_to_int event = refl
int_to_kind-kind_to_int ack = refl
int_to_kind-kind_to_int err = refl

-- An integer that is read as a kind is the one that the kind is written as.
kind_to_int-int_to_kind : (n : ℕ) (k : Kind) → int_to_kind n ≡ some k → kind_to_int k ≡ n
unfolding int_to_kind kind_to_int
kind_to_int-int_to_kind zero k h = ground arith
kind_to_int-int_to_kind (suc zero) k h = ground arith
kind_to_int-int_to_kind (suc (suc zero)) k h = ground arith
kind_to_int-int_to_kind (suc (suc (suc zero))) k h = ground arith
kind_to_int-int_to_kind (suc (suc (suc (suc zero)))) k h = ground arith
kind_to_int-int_to_kind (suc (suc (suc (suc (suc n))))) k h = ground arith
