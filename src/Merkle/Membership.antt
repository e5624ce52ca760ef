-- ===== src/Merkle/Membership.antt =====
-- The proofs that `buildProof` makes for the leaves (core/src/registry_merkle.ts).
use native.Mathlib.Nat.{le_of_eq}
use decentralized_dns.Prelude.{
  ℕ, zero, suc, ◌/◌, ◌≤◌, ◌≡◌, refl, ◌∙◌, sym, Bool, true, false, some, none, List, [], ◌∷◌, map,
  length, length-map, get_elem?, leb, leb→le, Text, any, text_eq, text_eq_iff, arith, Bool-cases,
  inl, inr,
}
use decentralized_dns.Merkle.{
  Leaf, next_level, build_layers, build_tree, root_of, first_or_empty, path_from, find_leaf,
  build_proof, climb, verify_proof, build_merkle_root,
}
use decentralized_dns.Merkle.Tree.{next_level-at, length-next_level-lt}

module _ (digest : Text → Text) where
  -- The layers above are never missing.
  build_layers-cons :
      (fuel : ℕ) (level : List Text)
      → (rest : List (List Text)) × (build_layers digest fuel level ≡ level ∷ rest)
  unfolding build_layers
  build_layers-cons zero level = ([], refl)
  build_layers-cons (suc fuel) level = elim (Bool-cases (leb (length level) 1)) [
    | inl short ↦ ([], rw short)
    | inr long ↦ (build_layers digest fuel (next_level digest level), rw long)
  ]

  only_hash :
      (level : List Text) (idx : ℕ) (h : Text)
      → length level ≤ 1
      → get_elem? level idx ≡ some h
      → first_or_empty level ≡ h
  only_hash [] idx h small e = cc
  only_hash (x ∷ []) zero h small e = cc
  only_hash (x ∷ []) (suc idx) h small e = cc
  only_hash (x ∷ y ∷ level) idx h small e = absurd (omega arith)

  climb-build_layers :
      (fuel : ℕ) (level : List Text) (idx : ℕ) (h : Text)
      → length level ≤ fuel
      → get_elem? level idx ≡ some h
      → climb digest h
          (path_from (build_layers digest fuel level) idx).siblings
          (path_from (build_layers digest fuel level) idx).directions
        ≡ root_of (build_layers digest fuel level)
  unfolding build_layers path_from climb root_of
  climb-build_layers zero level idx h small e = sym (only_hash level idx h (omega arith) e)
  climb-build_layers (suc fuel) level idx h small e = elim (Bool-cases (leb (length level) 1)) [
    | inl short ↦ rw short (sym (only_hash level idx h (leb→le _ _ short) e))
    | inr long ↦
        let (rest, same) = build_layers-cons fuel (next_level digest level) in
        let below = length-next_level-lt digest level long in
        let up = next_level-at digest level idx h e in
        let ih = climb-build_layers fuel (next_level digest level) (idx / 2) _ (omega arith) up in
        rw (long, same) (rw same at ih)
  ]

get_elem?-map :
    (leaves : List Leaf) (i : ℕ) (leaf : Leaf)
    → get_elem? leaves i ≡ some leaf
    → get_elem? (map (λ (l : Leaf). l.hash) leaves) i ≡ some leaf.hash
get_elem?-map [] i leaf e = cc
get_elem?-map (l ∷ leaves) zero leaf e = ground (arith, e)
get_elem?-map (l ∷ leaves) (suc i) leaf e = get_elem?-map leaves i leaf e

abbrev pub has_name : Text → List Leaf → Bool
has_name name leaves = any (λ (leaf : Leaf). text_eq leaf.name name) leaves

-- The leaf that is found stands at its index and has the name.
pub record Found (name : Text) (leaves : List Leaf) : Type 0 where
  pub index : ℕ
  pub leaf : Leaf
  pub found : find_leaf name leaves ≡ some (index, leaf)
  pub at_index : get_elem? leaves index ≡ some leaf
  pub named : leaf.name ≡ name

find_leaf-Found :
    (name : Text) (leaves : List Leaf) → has_name name leaves ≡ true → Found name leaves
unfolding find_leaf
find_leaf-Found name [] h = cc
find_leaf-Found name (l ∷ leaves) h = elim (Bool-cases (text_eq l.name name)) [
  | inl same ↦ record {
    index = 0;
    leaf = l;
    found = rw same;
    at_index = refl;
    named = (text_eq_iff l.name name).0 same;
  }
  | inr other ↦
      let f = find_leaf-Found name leaves (rw other at h) in
      record {
        index = suc f.index;
        leaf = f.leaf;
        found = rw (other, f.found);
        at_index = f.at_index;
        named = f.named;
      }
]

find_leaf-none :
    (name : Text) (leaves : List Leaf) → has_name name leaves ≡ false → find_leaf name leaves ≡ none
unfolding find_leaf
find_leaf-none name [] h = refl
find_leaf-none name (l ∷ leaves) h = ground (arith, find_leaf-none name leaves)

root_of-build_tree :
    (digest : Text → Text) (leaves : List Leaf) (name : Text)
    → has_name name leaves ≡ true
    → root_of (build_tree digest leaves) ≡ build_merkle_root digest leaves
unfolding build_merkle_root
root_of-build_tree digest [] name h = cc
root_of-build_tree digest (l ∷ leaves) name h = refl

module _ (digest : Text → Text) (leaves : List Leaf) (name : Text) where
  -- The proof that is built for a registered name verifies against the registry's root, and proves
  -- the hash of a leaf that has this name.
  pub verify_proof-build_proof :
      has_name name leaves ≡ true
      → (verify_proof digest
            (build_merkle_root digest leaves)
            (build_proof digest leaves name).leaf
            (build_proof digest leaves name).proof
          ≡ true)
        × ((build_proof digest leaves name).root ≡ build_merkle_root digest leaves)
        × ((i : ℕ) × (leaf : Leaf) × (get_elem? leaves i ≡ some leaf)
            × (leaf.name ≡ name)
            × ((build_proof digest leaves name).leaf ≡ leaf.hash))
  unfolding build_proof verify_proof
  verify_proof-build_proof h =
      let f = find_leaf-Found name leaves h in
      let root = root_of-build_tree digest leaves name h in
      let top =
        climb-build_layers digest (length leaves) (map (λ (l : Leaf). l.hash) leaves) f.index
          f.leaf.hash (le_of_eq (length-map (λ (l : Leaf). l.hash) leaves))
          (get_elem?-map leaves f.index f.leaf f.at_index) in
      rw (f.found, build_proof)
        (
          (text_eq_iff _ _).1 (unfold build_tree in top ∙ root),
          root,
          (f.index, f.leaf, f.at_index, f.named, refl),
        )

  -- For a name that is not registered no leaf is proved, and the empty proof is refused unless the
  -- root itself is empty.
  pub verify_proof-absent :
      has_name name leaves ≡ false
      → ((build_proof digest leaves name).leaf ≡ [])
        × (verify_proof digest
              (build_merkle_root digest leaves)
              (build_proof digest leaves name).leaf
              (build_proof digest leaves name).proof
            ≡ text_eq [] (build_merkle_root digest leaves))
  unfolding build_proof verify_proof climb
  verify_proof-absent h = rw (find_leaf-none name leaves h, build_proof) (refl, refl)
