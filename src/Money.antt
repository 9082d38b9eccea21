-- ===== src/Money.antt =====
-- Money (src/domain/money.ts; hub/src/domain/money.ts is the same class without `plus` and
-- `lessThan`). Sums of two safe integers stay below 2^54, where a double may round an odd sum that
-- is past 2^53; rounding is monotone and exact up to 2^53, so it never turns an unsafe sum into a
-- safe one, and the exact sum of the model passes the same test.
pub mod Laws
use distributed_payment_ledg.Prelude.{ℕ, ◌≤◌, Bool, false, ◌&&◌, leb, if◌then◌else◌}
use distributed_payment_ledg.Prelude.Int.{ℤ, pos, ◌+ℤ◌, neg, ltb_ℤ, leb_ℤ, pos_part, neg_part}
use distributed_payment_ledg.Exec.{Result, ok, err}

-- A number of the language: an integer, or a value that is none (a fraction, NaN, an infinity).
pub data Number : Type 0 where
  integer : ℤ → Number
  not_integer : Number

-- `InvalidAmountError`, with the value that it reports.
pub data InvalidAmountError : Type 0 where
  invalid : Number → InvalidAmountError

pub record Money : Type 0 where
  pub cents : ℤ

-- `Number.MAX_SAFE_INTEGER`, 2^53 - 1.
abbrev pub max_safe_integer : ℕ
max_safe_integer = 9007199254740991

-- `Number.isSafeInteger`.
abbrev pub is_safe_integer : Number → Bool
is_safe_integer (integer z) = leb (pos_part z) max_safe_integer && leb (neg_part z) max_safe_integer
is_safe_integer not_integer = false

unfoldable pub from_cents : Number → Result InvalidAmountError Money
from_cents (integer z) =
    if is_safe_integer (integer z) then ok (record { cents = z }) else err (invalid (integer z))
from_cents not_integer = err (invalid not_integer)

unfoldable pub zero : Money
zero = record { cents = pos 0 }

unfoldable pub plus : Money → Money → Result InvalidAmountError Money
unfolding from_cents
plus a b = from_cents (integer (a.cents +ℤ b.cents))

unfoldable pub negated : Money → Result InvalidAmountError Money
unfolding from_cents
negated a = from_cents (integer (neg a.cents))

abbrev pub is_positive : Money → Bool
is_positive a = ltb_ℤ (pos 0) a.cents

abbrev pub less_than : Money → Money → Bool
less_than a b = ltb_ℤ a.cents b.cents

-- `this.cents === other.cents`.
abbrev pub equals : Money → Money → Bool
equals a b = leb_ℤ a.cents b.cents && leb_ℤ b.cents a.cents

-- What every `Money` satisfies, since its constructor is private.
abbrev pub IsSafe : ℤ → Type 0
IsSafe z = (pos_part z ≤ max_safe_integer) × (neg_part z ≤ max_safe_integer)
