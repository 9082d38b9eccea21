-- ===== src/Money/Laws.antt =====
-- The arithmetic of `Money` within the safe integers.
use distributed_payment_ledg.Prelude.{◌≡◌, ◌↔◌, true, arith}
use distributed_payment_ledg.Prelude.Int.{ℤ, neg, eq_of_parts}
use distributed_payment_ledg.Exec.{ok}
use distributed_payment_ledg.Money.{
  Money, Number, integer, not_integer, from_cents, negated, equals, IsSafe,
}

pub from_cents-safe : (z : ℤ) → IsSafe z → from_cents (integer z) ≡ ok (record { cents = z })
unfolding from_cents
from_cents-safe z h = ground arith

-- Whatever `from_cents` accepts is a safe integer, and comes back unchanged.
pub from_cents-ok :
    (n : Number) (m : Money) → from_cents n ≡ ok m → (n ≡ integer m.cents) × IsSafe m.cents
unfolding from_cents
from_cents-ok (integer z) m h = ground arith
from_cents-ok not_integer m h = cc

-- Negation never throws on a value that `from_cents` can make.
pub negated-safe : (m : Money) → IsSafe m.cents → negated m ≡ ok (record { cents = neg m.cents })
unfolding negated from_cents neg
negated-safe m h = ground arith

pub equals_iff : (a b : Money) → (equals a b ≡ true) ↔ (a.cents ≡ b.cents)
equals_iff a b = (λ h. eq_of_parts _ _ (ground arith), λ h. ground arith)
