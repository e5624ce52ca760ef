-- ===== src/Bytes/Words.antt =====
-- Little-endian words of core/src/bytes.ts: lengths, ranges, and both round trips.
use native.Mathlib.Nat.{pow-suc}
use decentralized_dns.Prelude.{
  ℕ, zero, suc, ◌+◌, ◌*◌, ◌/◌, ◌%◌, ◌^◌, ◌≤◌, ◌<◌, ◌≡◌, refl, ap, [], ◌∷◌, ◌++◌, length, take, drop,
  length-append, length-take, length-drop, subst, take-append, arith, ok, ℤ, pos, negsuc, wrap,
  ltb-eq-false,
}
use decentralized_dns.Prelude.All.{All-take, All-drop}
use decentralized_dns.Bytes.{Bytes, IsBytes, le, of_le, read_le}

pub length-le : (k n : ℕ) → length (le k n) ≡ k
unfolding le
length-le zero n = refl
length-le (suc k) n = ap suc (length-le k (n / 256))

pub le-IsBytes : (k n : ℕ) → IsBytes (le k n)
unfolding le
le-IsBytes zero n = tt
le-IsBytes (suc k) n = (omega arith, le-IsBytes k (n / 256))

pub of_le-le : (k n : ℕ) → n < 256 ^ k → of_le (le k n) ≡ n
unfolding le of_le
of_le-le zero n h = omega arith
of_le-le (suc k) n h =
    let bound : n < 256 ^ k * 256 = rw pow-suc at h in
    let ih : of_le (le k (n / 256)) ≡ n / 256 = of_le-le k (n / 256) (omega arith) in omega arith

pub le-of_le : (bs : Bytes) → IsBytes bs → le (length bs) (of_le bs) ≡ bs
unfolding le of_le
le-of_le [] h = refl
le-of_le (b ∷ bs) (p, h) =
    let low : (b + 256 * of_le bs) % 256 ≡ b = omega arith in
    let high : (b + 256 * of_le bs) / 256 ≡ of_le bs = omega arith in
    rw (low, high) (ap (λ l. b ∷ l) (le-of_le bs h))

pub of_le-lt : (bs : Bytes) → IsBytes bs → of_le bs < 256 ^ length bs
unfolding of_le
of_le-lt [] h = omega arith
of_le-lt (b ∷ bs) (p, h) = rw pow-suc (omega (arith, of_le-lt bs h))

-- A word that was written in front of `rest` is read back.
pub read_le-le : (k n : ℕ) (rest : Bytes) → n < 256 ^ k → read_le k (le k n ++ rest) 0 ≡ ok n
unfolding read_le
read_le-le k n rest h = rw (
  ltb-eq-false (length (le k n ++ rest)) (0 + k)
      (omega (arith, length-append (le k n) rest, length-le k n)),
  take-append k (le k n) rest (length-le k n),
  of_le-le k n h,
)

-- The 64-bit word of a bigint that is in range.
pub wrap-pos : (w n : ℕ) → n < 2 ^ w → wrap w (pos n) ≡ n
wrap-pos w n h = grind arith

pub read_le-of_take :
    (k n off : ℕ) (bs : Bytes)
    → off + k ≤ length bs
    → take k (drop off bs) ≡ le k n
    → n < 256 ^ k
    → read_le k bs off ≡ ok n
unfolding read_le
read_le-of_take k n off bs fits same h =
    rw (ltb-eq-false (length bs) (off + k) fits, same, of_le-le k n h)

-- A read that lies within the buffer.
pub read_le_within :
    (k off : ℕ) (bs : Bytes)
    → off + k ≤ length bs
    → read_le k bs off ≡ ok (of_le (take k (drop off bs)))
unfolding read_le
read_le_within k off bs fits = rw (ltb-eq-false (length bs) (off + k) fits)

-- Bytes read as a word and written again are the same bytes, and the word is in range.
module _ (k off : ℕ) (bs : Bytes) (h : IsBytes bs) (fits : off + k ≤ length bs) where
  length-word : length (take k (drop off bs)) ≡ k
  length-word = omega (arith, length-take k (drop off bs), length-drop off bs)

  word-IsBytes : IsBytes (take k (drop off bs))
  word-IsBytes = All-take _ k (drop off bs) (All-drop _ off bs h)

  pub le-of_le_word : le k (of_le (take k (drop off bs))) ≡ take k (drop off bs)
  le-of_le_word =
      subst (λ n. le n (of_le (take k (drop off bs))) ≡ take k (drop off bs)) length-word
        (le-of_le (take k (drop off bs)) word-IsBytes)

  pub of_le_word-lt : of_le (take k (drop off bs)) < 256 ^ k
  of_le_word-lt =
      subst (λ n. of_le (take k (drop off bs)) < 256 ^ n) length-word
        (of_le-lt (take k (drop off bs)) word-IsBytes)

pub wrap-lt : (z : ℤ) → wrap 64 z < 256 ^ 8
wrap-lt (pos n) = omega arith
wrap-lt (negsuc n) = omega arith
