-- ===== src/Prelude/Floats/Whole.antt =====
-- Sums and differences of whole numbers below 2 ^ 53 are exact.
use decentralized_dns.Prelude.{
  ℕ, zero, suc, ◌+◌, ◌-◌, ◌*◌, ◌≡◌, ◌≤◌, ◌<◌, refl, sym, ap, ◌∙◌, true, false, ltb, leb, arith, pos,
  Bool-cases, inl, inr, ◌+ℤ◌, ◌-ℤ◌, int_laws, ◌^◌, leb→le,
}
use native.Mathlib.Nat.{
  mul-div_cancel, mul-mod_left, mul_assoc, mul_comm, mul-one, pow-suc, mul-lt-mul_of_pos_right,
  le_of_mul-le-mul_right, zero-mul, mul-le-mul_right, one-mul, lt_of_lt_of_le, add-mul,
}
use decentralized_dns.Prelude.Doubles.{finite, less}
use decentralized_dns.Prelude.Floats.{
  one, whole, overflow, spacing, nearest, round_within, round, rounded, plus, minus,
}

-- The distance that is found divides a distance that is large enough.
spacing-divides :
    (fuel s n i : ℕ)
    → i ≤ fuel
    → n < 2 ^ 53 * (s * 2 ^ i)
    → (c : ℕ) × (c * spacing fuel s s n ≡ s * 2 ^ i)
unfolding spacing
spacing-divides zero s n zero h lt = (1, omega arith)
spacing-divides zero s n (suc i) h lt = absurd (omega arith)
spacing-divides (suc fuel) s n zero h lt =
    let near : ltb n (2 ^ 53 * s) ≡ true = ground arith in rw near (1, omega arith)
spacing-divides (suc fuel) s n (suc i) h lt = elim (Bool-cases (ltb n (2 ^ 53 * s))) [
  | inl near ↦ rw near (2 ^ suc i, mul_comm (2 ^ suc i) s)
  | inr far ↦
      let again : 2 * s * 2 ^ i ≡ s * 2 ^ suc i = grind (arith, pow-suc 2 i) in
      let (c, e) = spacing-divides fuel (2 * s) n i (omega arith) (rw again lt) in
      rw far (c, rw again at e)
]

nearest-mul : (m d : ℕ) → 0 < d → nearest (m * d) d ≡ m
unfolding nearest
nearest-mul m d h = rw (mul-div_cancel m h, mul-mod_left m d) (ground arith)

nearest-multiple : (m c s u : ℕ) → 0 < s → c * s ≡ u → nearest (m * u) (s * 1) * s ≡ m * u
nearest-multiple m c s u h e = rw (mul-one s, ← e, ← mul_assoc m c s, nearest-mul (m * c) s h)

power_positive : (i : ℕ) → 0 < 2 ^ i
power_positive zero = omega arith
power_positive (suc i) = rw (pow-suc 2 i) (omega (arith, power_positive i))

factor_positive : (c s u : ℕ) → c * s ≡ u → 0 < u → 0 < s
factor_positive c zero u e h = absurd (omega arith)
factor_positive c (suc s) u e h = omega arith

-- A multiple of a power of 2 is a double, if it has at most 53 bits.
round_within-multiple :
    (places i m : ℕ)
    → i ≤ places
    → m < 2 ^ 53
    → round_within places 1 (m * (1 * 2 ^ i)) ≡ m * (1 * 2 ^ i)
unfolding round_within
round_within-multiple places i m enough small =
    let u = 1 * 2 ^ i in
    let u_positive : 0 < u = rw (one-mul (2 ^ i)) (power_positive i) in
    let (c, e) =
      spacing-divides places 1 (m * u) i enough (mul-lt-mul_of_pos_right small u_positive) in
    let s = spacing places 1 1 (m * u) in
    let s_positive = factor_positive c s u e u_positive in nearest-multiple m c s u s_positive e

round-whole : (n : ℕ) → n < 2 ^ 53 → round 1 (n * one) ≡ n * one
unfolding round one
round-whole n h = round_within-multiple 2100 1074 n (omega arith) h

below_overflow : (n : ℕ) → n < 2 ^ 53 → leb overflow (n * one) ≡ false
unfolding overflow one
below_overflow n h =
    let lt = mul-lt-mul_of_pos_right h (power_positive 1074) in
    ltb-not-leb (n * 2 ^ 1074) (2 ^ 2098)
      (lt_of_lt_of_le lt (leb→le (2 ^ 53 * 2 ^ 1074) (2 ^ 2098) refl))
  where
    ltb-not-leb : (a b : ℕ) → a < b → leb b a ≡ false
    ltb-not-leb a b h = ground arith

rounded-whole : (n : ℕ) → n < 2 ^ 53 → rounded 1 (pos (n * one)) ≡ whole n
unfolding rounded
rounded-whole n h = rw (round-whole n h, below_overflow n h)

pub add_pos : (a b : ℕ) → pos a +ℤ pos b ≡ pos (a + b)
add_pos a b = grind int_laws

subtract_pos : (a b : ℕ) → b ≤ a → pos a -ℤ pos b ≡ pos (a - b)
subtract_pos a b h = grind int_laws

pub plus-whole : (a b : ℕ) → a + b < 2 ^ 53 → plus (whole a) (whole b) ≡ whole (a + b)
unfolding plus
plus-whole a b h =
    ap (rounded 1) (add_pos (a * one) (b * one))
    ∙ ap (λ (n : ℕ). rounded 1 (pos n)) (sym (add-mul a b one))
    ∙ rounded-whole (a + b) h

subtract-mul : (a b k : ℕ) → b ≤ a → a * k - b * k ≡ (a - b) * k
subtract-mul a b k h =
    let back : a - b + b ≡ a = omega arith in
    let sum : a * k ≡ (a - b) * k + b * k = rw (← add-mul (a - b) b k, back) refl in omega arith

pub minus-whole : (a b : ℕ) → b ≤ a → a < 2 ^ 53 → minus (whole a) (whole b) ≡ whole (a - b)
unfolding minus
minus-whole a b le h =
    ap (rounded 1) (subtract_pos (a * one) (b * one) (mul-le-mul_right one le))
    ∙ ap (λ (n : ℕ). rounded 1 (pos n)) (subtract-mul a b one le)
    ∙ rounded-whole (a - b) (omega arith)

pub whole_zero : whole 0 ≡ finite (pos 0)
whole_zero = ap (λ (n : ℕ). finite (pos n)) (zero-mul one)

one_positive : 0 < one
unfolding one
one_positive = power_positive 1074

at_most-finite : (a b : ℕ) → less (finite (pos b)) (finite (pos a)) ≡ false → a ≤ b
at_most-finite a b h = ground arith

pub covered-whole : (a b : ℕ) → less (whole b) (whole a) ≡ false → a ≤ b
covered-whole a b h = le_of_mul-le-mul_right (at_most-finite (a * one) (b * one) h) one_positive
