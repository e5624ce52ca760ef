-- ===== src/Bytes/Parts.antt =====
-- `concatBytes(...parts)` of core/src/bytes.ts, taken apart again at the offset of each part.
use decentralized_dns.Prelude.{
  ℕ, zero, suc, ◌+◌, ◌<◌, ◌^◌, ◌≡◌, refl, ap, ◌∙◌, sym, List, [], ◌∷◌, ◌++◌, length, take, drop,
  arith, ok, length-append, take-append, drop-append, append_assoc,
}
use decentralized_dns.Bytes.{byte_at, Bytes, le, read_le, concat_bytes}
use decentralized_dns.Bytes.Words.{length-le, read_le-of_take}

abbrev pub total : List Bytes → ℕ
total [] = 0
total (p ∷ parts) = length p + total parts

pub length-concat_bytes : (parts : List Bytes) → length (concat_bytes parts) ≡ total parts
unfolding concat_bytes
length-concat_bytes [] = refl
length-concat_bytes (p ∷ parts) =
    omega (arith, length-append p (concat_bytes parts), length-concat_bytes parts)

pub concat_bytes-append :
    (xs ys : List Bytes) → concat_bytes (xs ++ ys) ≡ concat_bytes xs ++ concat_bytes ys
unfolding concat_bytes
concat_bytes-append [] ys = refl
concat_bytes-append (x ∷ xs) ys =
    ap (λ l. x ++ l) (concat_bytes-append xs ys)
    ∙ sym (append_assoc x (concat_bytes xs) (concat_bytes ys))

byte_at-drop : (i : ℕ) (bs : Bytes) → byte_at bs i ≡ byte_at (drop i bs) 0
byte_at-drop zero bs = refl
byte_at-drop (suc i) [] = refl
byte_at-drop (suc i) (b ∷ bs) = byte_at-drop i bs

module _ (front : List Bytes) (post : List Bytes) (off : ℕ) (at_off : total front ≡ off) where
  drop-parts : (x : Bytes) → drop off (concat_bytes (front ++ x ∷ post)) ≡ x ++ concat_bytes post
  unfolding concat_bytes
  drop-parts x = rw (concat_bytes-append front (x ∷ post)) (
      drop-append off (concat_bytes front) (x ++ concat_bytes post)
        (omega (arith, length-concat_bytes front)))

  -- The part that begins at `off`.
  pub part_at :
      (x : Bytes) (k : ℕ) → length x ≡ k → take k (drop off (concat_bytes (front ++ x ∷ post))) ≡ x
  part_at x k h = rw (drop-parts x) (take-append k x (concat_bytes post) h)

  -- The word that begins at `off`.
  pub word_at :
      (k n : ℕ) → n < 256 ^ k → read_le k (concat_bytes (front ++ le k n ∷ post)) off ≡ ok n
  unfolding concat_bytes
  word_at k n h =
      read_le-of_take k n off (concat_bytes (front ++ le k n ∷ post))
        (omega (
          arith,
          ap length (concat_bytes-append front (le k n ∷ post)),
          length-append (concat_bytes front) (le k n ++ concat_bytes post),
          length-append (le k n) (concat_bytes post),
          length-concat_bytes front,
          length-le k n,
        ))
        (part_at (le k n) k (length-le k n)) h

  -- The single byte that stands at `off`.
  pub byte_part_at : (b : ℕ) → byte_at (concat_bytes (front ++ (b ∷ []) ∷ post)) off ≡ b
  byte_part_at b =
      byte_at-drop off (concat_bytes (front ++ (b ∷ []) ∷ post))
      ∙ ap (λ l. byte_at l 0) (drop-parts (b ∷ []))

-- A joined buffer in front of `rest`, part by part.
pub concat_bytes-front :
    (p : Bytes) (parts : List Bytes) (rest : Bytes)
    → concat_bytes (p ∷ parts) ++ rest ≡ p ++ (concat_bytes parts ++ rest)
unfolding concat_bytes
concat_bytes-front p parts rest = append_assoc p (concat_bytes parts) rest

pub concat_bytes-end : (rest : Bytes) → concat_bytes [] ++ rest ≡ rest
unfolding concat_bytes
concat_bytes-end rest = refl
