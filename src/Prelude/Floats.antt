-- ===== src/Prelude/Floats.antt =====
-- The arithmetic of JavaScript numbers (IEEE 754 binary64) on the values of Prelude.Doubles, for code that adds and
-- multiplies fractions. Here `finite z` is z times 2 ^ -1074, the distance of the smallest doubles, so that every
-- double is a whole number of units; a result is rounded to 53 significant bits, to even when it lies
-- halfway, and overflows to an infinity. There is no negative zero: no comparison tells it from 0.
pub mod Whole
use Prim.Native.Nat.{ℕ, zero, suc, ◌+◌, ◌-◌, ◌*◌, ◌/◌, ◌%◌, ◌^◌}
use mathlib.Core.Bool.{Bool, true, false}
use decentralized_dns.Prelude.Tests.{ltb, leb, ◌==◌, if◌then◌else◌}
use decentralized_dns.Prelude.Int.{ℤ, pos, negsuc, ◌+ℤ◌, ◌-ℤ◌}
use decentralized_dns.Prelude.Doubles.{Double, finite, nan, infinity, neg_infinity, less}

-- The units of the number 1.
unfoldable pub one : ℕ
one = 2 ^ 1074

abbrev pub whole : ℕ → Double
whole n = finite (pos (n * one))

-- 2 ^ 1024, which no finite double reaches.
unfoldable pub overflow : ℕ
overflow = 2 ^ 2098

-- The distance s of the doubles near a number: the least power of 2 for which 2 ^ 53 times t is above it, where t
-- grows with s.
unfoldable pub spacing : ℕ → ℕ → ℕ → ℕ → ℕ
spacing zero s t n = s
spacing (suc fuel) s t n =
    let rest = spacing fuel (2 * s) (2 * t) n in if ltb n (2 ^ 53 * t) then s else rest

-- The whole number next to n / d, the even one of two.
unfoldable pub nearest : ℕ → ℕ → ℕ
nearest n d =
    let q = n / d in
    let twice = 2 * (n % d) in
    if ltb twice d then q else if ltb d twice then suc q else if q % 2 == 0 then q else suc q

-- n / den, rounded to a double, from the distances up to so many binary places.
unfoldable pub round_within : ℕ → ℕ → ℕ → ℕ
unfolding spacing nearest
round_within places den n = let s = spacing places 1 den n in nearest n (s * den) * s

-- Distances above 2 ^ 2045 are those of numbers that overflow.
unfoldable pub round : ℕ → ℕ → ℕ
unfolding round_within
round den n = round_within 2100 den n

abbrev pub positive : ℕ → Double
positive n = if leb overflow n then infinity else finite (pos n)

abbrev pub negative : ℕ → Double
negative n = if leb overflow n then neg_infinity else finite (pos 0 -ℤ pos n)

unfoldable pub rounded : ℕ → ℤ → Double
unfolding round
rounded den (pos n) = positive (round den n)
rounded den (negsuc n) = negative (round den (suc n))

-- `a - b`
unfoldable pub minus : Double → Double → Double
unfolding rounded
minus (finite a) (finite b) = rounded 1 (a -ℤ b)
minus nan _ = nan
minus _ nan = nan
minus (finite a) infinity = neg_infinity
minus (finite a) neg_infinity = infinity
minus infinity infinity = nan
minus infinity _ = infinity
minus neg_infinity neg_infinity = nan
minus neg_infinity _ = neg_infinity

-- `a + b`
unfoldable pub plus : Double → Double → Double
unfolding rounded
plus (finite a) (finite b) = rounded 1 (a +ℤ b)
plus nan _ = nan
plus _ nan = nan
plus (finite a) b = b
plus infinity neg_infinity = nan
plus neg_infinity infinity = nan
plus a _ = a

-- An infinity times a number.
abbrev pub infinitely : (of_positive of_negative a : Double) → Double
infinitely of_positive of_negative nan = nan
infinitely of_positive of_negative (finite (pos zero)) = nan
infinitely of_positive of_negative a = if less a (finite (pos 0)) then of_negative else of_positive

-- `a * b`
unfoldable pub times : Double → Double → Double
unfolding rounded
times (finite (pos a)) (finite (pos b)) = rounded one (pos (a * b))
times (finite (pos a)) (finite (negsuc b)) = rounded one (pos 0 -ℤ pos (a * suc b))
times (finite (negsuc a)) (finite (pos b)) = rounded one (pos 0 -ℤ pos (suc a * b))
times (finite (negsuc a)) (finite (negsuc b)) = rounded one (pos (suc a * suc b))
times infinity b = infinitely infinity neg_infinity b
times neg_infinity b = infinitely neg_infinity infinity b
times a infinity = infinitely infinity neg_infinity a
times a neg_infinity = infinitely neg_infinity infinity a
times nan _ = nan
times _ nan = nan
