-- ===== src/Merkle/Binding.antt =====
-- Two proofs against one root, and collisions of the hash function (core/src/registry_merkle.ts).
use mathlib.Core.Path.{ap₂}
use decentralized_dns.Prelude.{
  ℕ, ◌≡◌, ◌≢◌, ◌⊎◌, inl, inr, refl, sym, ◌∙◌, true, List, [], ◌∷◌, ◌++◌, length, Text, text_eq,
  text_eq_iff, arith, Bool-cases,
}
use decentralized_dns.Prelude.All.{All}
use decentralized_dns.Merkle.{Direction, left, right, MerkleProof, combine, climb, verify_proof}

-- Two different texts with one hash.
pub record Collision (digest : Text → Text) : Type 0 where
  pub first : Text
  pub second : Text
  pub differ : first ≢ second
  pub same_hash : digest first ≡ digest second

-- Texts whose front parts have one length are equal part by part.
append-inj : (a b x y : Text) → length a ≡ length b → a ++ x ≡ b ++ y → (a ≡ b) × (x ≡ y)
append-inj [] [] x y l e = (refl, e)
append-inj [] (d ∷ b) x y l e = absurd (omega arith)
append-inj (c ∷ a) [] x y l e = absurd (omega arith)
append-inj (c ∷ a) (d ∷ b) x y l e = let (p, q) = append-inj a b x y (omega arith) (cc) in (cc, q)

combine-inj :
    (d : Direction) (a b x y : Text)
    → length x ≡ length y
    → length a ≡ length b
    → combine d a x ≡ combine d b y
    → (x ≡ y) × (a ≡ b)
combine-inj left a b x y l m e = let (p, q) = append-inj a b x y m e in (q, p)
combine-inj right a b x y l m e = append-inj x y a b l e

module _ (digest : Text → Text) where
  Collision-or_same : (x y : Text) → digest x ≡ digest y → (x ≡ y) ⊎ Collision digest
  Collision-or_same x y e = elim (Bool-cases (text_eq x y)) [
    | inl same ↦ inl ((text_eq_iff x y).0 same)
    | inr other ↦
        inr (record {
          first = x;
          second = y;
          differ = λ p. cc ((text_eq_iff x y).1 p);
          same_hash = e;
        })
  ]

  -- One step: the digest of two pairs of equal lengths is the same only for the same pair.
  step_or_Collision :
      (d : Direction) (a b x y : Text)
      → length x ≡ length y
      → length a ≡ length b
      → digest (combine d a x) ≡ digest (combine d b y)
      → ((x ≡ y) × (a ≡ b)) ⊎ Collision digest
  step_or_Collision d a b x y l m e = elim (Collision-or_same (combine d a x) (combine d b y) e) [
    | inl same ↦ inl (combine-inj d a b x y l m same)
    | inr c ↦ inr c
  ]

module _ (digest : Text → Text) (n : ℕ) (hash_length : (x : Text) → length (digest x) ≡ n) where
  -- Hashes all have the length of a digest.
  abbrev pub AreHashes : List Text → Type 0
  AreHashes hs = All (λ h. length h ≡ n) hs

  joined :
      (d : Direction) (a b x y : Text) (us vs : List Text)
      → length x ≡ n
      → length y ≡ n
      → length a ≡ n
      → length b ≡ n
      → ((digest (combine d a x) ≡ digest (combine d b y)) × (us ≡ vs)) ⊎ Collision digest
      → ((x ≡ y) × (a ∷ us ≡ b ∷ vs)) ⊎ Collision digest
  joined d a b x y us vs lx ly la lb (inr c) = inr c
  joined d a b x y us vs lx ly la lb (inl (same, rest)) =
      elim (step_or_Collision digest d a b x y (omega arith) (omega arith) same) [
        | inl (p, q) ↦ inl (p, ap₂ ◌∷◌ q rest)
        | inr c ↦ inr c
      ]

  climb-binding :
      (x y : Text) (us vs : List Text) (dirs : List Direction)
      → length x ≡ n
      → length y ≡ n
      → AreHashes us
      → AreHashes vs
      → length us ≡ length vs
      → climb digest x us dirs ≡ climb digest y vs dirs
      → ((x ≡ y) × (us ≡ vs)) ⊎ Collision digest
  unfolding climb
  climb-binding x y [] [] dirs lx ly ha hb l e = inl (e, refl)
  climb-binding x y [] (b ∷ vs) dirs lx ly ha hb l e = absurd (omega arith)
  climb-binding x y (a ∷ us) [] dirs lx ly ha hb l e = absurd (omega arith)
  climb-binding x y (a ∷ us) (b ∷ vs) [] lx ly (la, ha) (lb, hb) l e =
      joined right a b x y us vs lx ly la lb (
        climb-binding (digest (x ++ a)) (digest (y ++ b)) us vs [] (hash_length _) (hash_length _)
          ha hb (omega arith) e)
  climb-binding x y (a ∷ us) (b ∷ vs) (d ∷ dirs) lx ly (la, ha) (lb, hb) l e =
      joined d a b x y us vs lx ly la lb (
        climb-binding (digest (combine d a x)) (digest (combine d b y)) us vs dirs (hash_length _)
          (hash_length _) ha hb (omega arith) e)

  -- Two proofs that go the same way through a tree and verify against one root are proofs of the
  -- same leaf with the same siblings, or they give two different texts with one hash. (All hashes
  -- have the length of a digest, as hexadecimal BLAKE3 output has.)
  pub verify_proof_binding :
      (root leaf leaf' : Text) (p p' : MerkleProof)
      → p.directions ≡ p'.directions
      → length p.siblings ≡ length p'.siblings
      → length leaf ≡ n
      → length leaf' ≡ n
      → AreHashes p.siblings
      → AreHashes p'.siblings
      → verify_proof digest root leaf p ≡ true
      → verify_proof digest root leaf' p' ≡ true
      → ((leaf ≡ leaf') × (p.siblings ≡ p'.siblings)) ⊎ Collision digest
  unfolding verify_proof
  verify_proof_binding root leaf leaf' p p' dirs depth l l' h h' v v' =
      let top = (text_eq_iff _ root).0 v in
      let top' = (text_eq_iff _ root).0 v' in
      climb-binding leaf leaf' p.siblings p'.siblings p.directions l l' h h' depth
        (top ∙ sym (rw dirs top'))
