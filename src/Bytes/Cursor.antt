-- ===== src/Bytes/Cursor.antt =====
-- Reading a buffer from front to back. The decoders of the repository keep an index `off` that only
-- grows; here the cursor is the rest of the buffer from `off` on, empty at and past its end.
use decentralized_dns.Prelude.{
  ℕ, zero, suc, ◌<◌, ◌^◌, ◌≡◌, refl, List, [], ◌∷◌, ◌++◌, length, take, drop, Result, ok, ◌>>=◌,
  take-append, drop-append, append_assoc, Option, some, none,
}
use decentralized_dns.Prelude.All.{All}
use decentralized_dns.Bytes.{Bytes, le, read_le}
use decentralized_dns.Bytes.Words.{length-le, read_le-le}

abbrev pub Reader {ℓ} : Type ℓ → Type ℓ
Reader A = Bytes → Result (A × Bytes)

-- `readU..le(bytes, off); off += k`
unfoldable pub next_le : ℕ → Reader ℕ
next_le k rest = do n ← read_le k rest 0; ok (n, drop k rest)

-- `bytes.slice(off, off + n); off += n`: what is missing at the end is not noticed.
unfoldable pub next_slice : ℕ → Bytes → Bytes × Bytes
next_slice n rest = (take n rest, drop n rest)

-- `bytes[off++]`, `none` for `undefined`
unfoldable pub next_byte : Bytes → Option ℕ × Bytes
next_byte [] = (none, [])
next_byte (b ∷ rest) = (some b, rest)

-- `for (let i = 0; i < n; i++) out.push(read())`
unfoldable pub repeat {ℓ} : {A : Type ℓ} → ℕ → Reader A → Reader (List A)
repeat zero p rest = ok ([], rest)
repeat (suc n) p rest = do one ← p rest; more ← repeat n p one.1; ok (one.0 ∷ more.0, more.1)

pub next_le-le : (k n : ℕ) (rest : Bytes) → n < 256 ^ k → next_le k (le k n ++ rest) ≡ ok (n, rest)
unfolding next_le
next_le-le k n rest h = rw (read_le-le k n rest h, drop-append k (le k n) rest (length-le k n))

pub next_slice-append :
    (n : ℕ) (xs rest : Bytes) → length xs ≡ n → next_slice n (xs ++ rest) ≡ (xs, rest)
unfolding next_slice
next_slice-append n xs rest h = rw (take-append n xs rest h, drop-append n xs rest h)

-- The parts that a loop pushes, joined by `concatBytes(...parts)`.
unfoldable pub encode_all {ℓ} : {A : Type ℓ} → (A → Bytes) → List A → Bytes
encode_all encode [] = []
encode_all encode (a ∷ items) = encode a ++ encode_all encode items

module _ {ℓ κ} {A : Type ℓ} (encode : A → Bytes) (p : Reader A) (P : A → Type κ)
    (p-encode : (a : A) (rest : Bytes) → P a → p (encode a ++ rest) ≡ ok (a, rest)) where
  -- Reading as many items as were written gives the items back.
  pub repeat-encode_all :
      (items : List A) (rest : Bytes)
      → All P items
      → repeat (length items) p (encode_all encode items ++ rest) ≡ ok (items, rest)
  unfolding repeat encode_all
  repeat-encode_all [] rest h = refl
  repeat-encode_all (a ∷ items) rest (q, h) = rw (
    append_assoc (encode a) (encode_all encode items) rest,
    p-encode a (encode_all encode items ++ rest) q,
    repeat-encode_all items rest h,
  )
