-- ===== src/Merkle/Tree.antt =====
-- The layers of the Merkle tree of core/src/registry_merkle.ts: their lengths, and one layer from
-- the one below it.
use decentralized_dns.Prelude.{
  ℕ, zero, suc, ◌+◌, ◌-◌, ◌/◌, ◌%◌, ◌≤◌, ◌<◌, ◌≡◌, refl, false, some, List, [], ◌∷◌, ◌++◌, length,
  get_elem?, leb, Text, if◌then◌else◌, arith, Bool-cases, inl, inr, leb→le,
}
use decentralized_dns.Merkle.{
  Direction, left, right, next_level, build_layers, is_right, sibling_at, combine,
}

abbrev pub direction_at : ℕ → Direction
direction_at idx = if is_right idx then left else right

-- Two places on, the sides and the siblings are the same.
is_right-suc-suc : (idx : ℕ) → is_right (suc (suc idx)) ≡ is_right idx
is_right-suc-suc idx = let e : suc (suc idx) % 2 ≡ idx % 2 = omega arith in rw e

sibling_at-suc-suc :
    (x y : Text) (level : List Text) (idx : ℕ)
    → sibling_at (x ∷ y ∷ level) (suc (suc idx)) ≡ sibling_at level idx
unfolding sibling_at
sibling_at-suc-suc x y level idx = elim (Bool-cases (is_right idx)) [
  | inl odd ↦
      let e : suc (suc idx) - 1 ≡ suc (suc (idx - 1)) = ground arith in
      rw (is_right-suc-suc idx, odd, e)
  | inr even ↦
      let e : suc (suc idx) + 1 ≡ suc (suc (idx + 1)) = omega arith in
      rw (is_right-suc-suc idx, even, e)
]

module _ (digest : Text → Text) where
  pub length-next_level :
      (level : List Text) → length (next_level digest level) ≡ (length level + 1) / 2
  unfolding next_level
  length-next_level [] = refl
  length-next_level (x ∷ []) = refl
  length-next_level (x ∷ y ∷ level) = omega (arith, length-next_level level)

  -- The parent of the hash at `idx` is the digest of the hash joined with its sibling.
  pub next_level-at :
      (level : List Text) (idx : ℕ) (h : Text)
      → get_elem? level idx ≡ some h
      → get_elem? (next_level digest level) (idx / 2)
        ≡ some (digest (combine (direction_at idx) (sibling_at level idx) h))
  unfolding next_level sibling_at
  next_level-at [] idx h e = cc
  next_level-at (x ∷ []) zero h e = cc
  next_level-at (x ∷ []) (suc idx) h e = cc
  next_level-at (x ∷ y ∷ level) zero h e = cc
  next_level-at (x ∷ y ∷ level) (suc zero) h e = cc
  next_level-at (x ∷ y ∷ level) (suc (suc idx)) h e =
      let half : suc (suc idx) / 2 ≡ suc (idx / 2) = omega arith in
      rw (half, sibling_at-suc-suc x y level idx, is_right-suc-suc idx)
        (next_level-at level idx h e)

  pub length-next_level-lt :
      (level : List Text)
      → leb (length level) 1 ≡ false
      → length (next_level digest level) < length level
  length-next_level-lt level h = ground (arith, length-next_level level)

  -- As many rounds as there are leaves are enough: the last layer has at most one hash.
  pub root_layer :
      (fuel : ℕ) (level : List Text)
      → length level ≤ fuel
      → (layers : List (List Text)) × (top : List Text) × (build_layers digest fuel level
          ≡ layers ++ top ∷ [])
        × (length top ≤ 1)
  unfolding build_layers
  root_layer zero level h = ([], level, refl, omega arith)
  root_layer (suc fuel) level h = elim (Bool-cases (leb (length level) 1)) [
    | inl short ↦ ([], level, rw short, leb→le _ _ short)
    | inr long ↦
        let below = length-next_level-lt level long in
        let (layers, top, same, small) = root_layer fuel (next_level digest level) (omega arith) in
        (level ∷ layers, top, rw (long, same), small)
  ]
