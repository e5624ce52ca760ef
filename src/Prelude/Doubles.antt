-- ===== src/Prelude/Doubles.antt =====
-- A JavaScript number with its comparisons, for the code that calculates with numbers. A finite number
-- is counted in units that a module fixes, so that fractions are whole numbers of units. The sums and
-- differences of this module are those of exact numbers, for code that counts whole seconds,
-- credits or tokens below 2 ^ 53; Prelude.Floats has the sums and products of IEEE doubles.
use Prim.Native.Nat.{zero}
use mathlib.Core.Bool.{Bool, true, false}
use mathlib.Core.Option.{Option, none, some}
use mathlib.Core.List.{List, [], ◌∷◌}
use decentralized_dns.Prelude.Tests.{if◌then◌else◌}
use decentralized_dns.Prelude.Int.{ℤ, pos, ltb_ℤ, leb_ℤ, ◌+ℤ◌, ◌-ℤ◌}

pub data Double : Type 0 where
  finite : ℤ → Double
  nan infinity neg_infinity : Double

-- `a < b`
abbrev pub less : Double → Double → Bool
less (finite a) (finite b) = ltb_ℤ a b
less (finite a) infinity = true
less neg_infinity (finite b) = true
less neg_infinity infinity = true
less _ _ = false

-- `a <= b`
abbrev pub less_or_equal : Double → Double → Bool
less_or_equal (finite a) (finite b) = leb_ℤ a b
less_or_equal (finite a) infinity = true
less_or_equal infinity infinity = true
less_or_equal neg_infinity (finite b) = true
less_or_equal neg_infinity infinity = true
less_or_equal neg_infinity neg_infinity = true
less_or_equal _ _ = false

abbrev pub is_finite : Double → Bool
is_finite (finite a) = true
is_finite _ = false

-- A number as a condition.
abbrev pub truthy : Double → Bool
truthy (finite (pos zero)) = false
truthy nan = false
truthy _ = true

-- `a - b`
abbrev pub minus : Double → Double → Double
minus (finite a) (finite b) = finite (a -ℤ b)
minus nan _ = nan
minus _ nan = nan
minus (finite a) infinity = neg_infinity
minus (finite a) neg_infinity = infinity
minus infinity infinity = nan
minus infinity _ = infinity
minus neg_infinity neg_infinity = nan
minus neg_infinity _ = neg_infinity

-- `a + b`
abbrev pub plus : Double → Double → Double
plus (finite a) (finite b) = finite (a +ℤ b)
plus nan _ = nan
plus _ nan = nan
plus (finite a) b = b
plus infinity neg_infinity = nan
plus neg_infinity infinity = nan
plus a _ = a

-- `value ?? default`
abbrev pub given {ℓ} : {A : Type ℓ} → Option A → A → A
given none default = default
given (some a) default = a

-- `Math.max(a, b)` and `Math.min(a, b)`
abbrev pub maximum : Double → Double → Double
maximum nan _ = nan
maximum _ nan = nan
maximum infinity _ = infinity
maximum _ infinity = infinity
maximum neg_infinity b = b
maximum a neg_infinity = a
maximum (finite a) (finite b) = finite (if leb_ℤ a b then b else a)

abbrev pub minimum : Double → Double → Double
minimum nan _ = nan
minimum _ nan = nan
minimum neg_infinity _ = neg_infinity
minimum _ neg_infinity = neg_infinity
minimum infinity b = b
minimum a infinity = a
minimum (finite a) (finite b) = finite (if leb_ℤ a b then a else b)

-- `Math.min(...xs)`
abbrev pub minimum_of : List Double → Double
minimum_of [] = infinity
minimum_of (x ∷ xs) = minimum x (minimum_of xs)
