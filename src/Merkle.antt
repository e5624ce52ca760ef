-- ===== src/Merkle.antt =====
-- core/src/registry_merkle.ts: the Merkle tree over the registry's leaves, and its proofs. A hash is
-- its hexadecimal text; `digest` stands for `bytesToHex(blake3(new TextEncoder().encode(input)))`.
pub mod Tree
pub mod Membership
pub mod Binding
mod Tests
use decentralized_dns.Prelude.{
  ℕ, zero, suc, ◌+◌, ◌-◌, ◌/◌, ◌%◌, ◌≡◌, Bool, true, false, Option, some, none, List, [], ◌∷◌, ◌++◌,
  map, length, get_elem?, leb, ◌==◌, Text, text_eq, if◌then◌else◌,
}

pub record Leaf : Type 0 where
  pub name : Text
  pub hash : Text

pub data Direction : Type 0 where
  left right : Direction

pub record MerkleProof : Type 0 where
  pub siblings : List Text
  pub directions : List Direction

pub record Proved : Type 0 where
  pub leaf : Text
  pub proof : MerkleProof
  pub root : Text

-- `tree.at(-1)?.[0] ?? ""`
abbrev pub first_or_empty : List Text → Text
first_or_empty [] = []
first_or_empty (h ∷ hs) = h

unfoldable pub root_of : List (List Text) → Text
root_of [] = []
root_of (layer ∷ []) = first_or_empty layer
root_of (layer ∷ above ∷ layers) = root_of (above ∷ layers)

-- `layer[pairIndex] ?? layer[idx]`
abbrev pub or_else : Option Text → Option Text → Text
or_else (some h) _ = h
or_else none (some h) = h
or_else none none = []

abbrev pub is_right : ℕ → Bool
is_right idx = (idx % 2) == 1

unfoldable pub sibling_at : List Text → ℕ → Text
sibling_at layer idx =
    or_else (get_elem? layer (if is_right idx then idx - 1 else idx + 1)) (get_elem? layer idx)

-- The loop over all layers but the last.
unfoldable pub path_from : List (List Text) → ℕ → MerkleProof
unfolding sibling_at
path_from [] idx = record { siblings = []; directions = [] }
path_from (layer ∷ []) idx = record { siblings = []; directions = [] }
path_from (layer ∷ above ∷ layers) idx =
    let rest = path_from (above ∷ layers) (idx / 2) in
    record {
      siblings = sibling_at layer idx ∷ rest.siblings;
      directions = (if is_right idx then left else right) ∷ rest.directions;
    }

-- `leaves.findIndex((leaf) => leaf.name === normalized)`, with the leaf that is found
unfoldable pub find_leaf : Text → List Leaf → Option (ℕ × Leaf)
find_leaf name [] = none
find_leaf name (leaf ∷ leaves) =
    let later = find_leaf name leaves in
    if text_eq leaf.name name
    then some (0, leaf)
    else elim later [ none ↦ none | some (i, found) ↦ some (suc i, found) ]

abbrev pub combine : Direction → Text → Text → Text
combine left sibling computed = sibling ++ computed
combine right sibling computed = computed ++ sibling

module _ (digest : Text → Text) where
  -- The inner loop of `buildTree`: an odd last hash is paired with itself.
  unfoldable pub next_level : List Text → List Text
  next_level [] = []
  next_level (x ∷ []) = digest (x ++ x) ∷ []
  next_level (x ∷ y ∷ level) = digest (x ++ y) ∷ next_level level

  -- The outer loop of `buildTree`, with fuel: the layers from the given one up.
  unfoldable pub build_layers : ℕ → List Text → List (List Text)
  unfolding next_level
  build_layers zero level = level ∷ []
  build_layers (suc fuel) level =
      let above = build_layers fuel (next_level level) in
      if leb (length level) 1 then level ∷ [] else level ∷ above

  unfoldable pub build_tree : List Leaf → List (List Text)
  unfolding build_layers
  build_tree leaves = build_layers (length leaves) (map (λ leaf. leaf.hash) leaves)

  unfoldable pub build_merkle_root : List Leaf → Text
  unfolding build_tree root_of
  build_merkle_root [] = digest []
  build_merkle_root (leaf ∷ leaves) = root_of (build_tree (leaf ∷ leaves))

  -- `buildProof` on the leaves that `buildLeaves` sorted, for a normalized name.
  unfoldable pub build_proof : List Leaf → Text → Proved
  unfolding find_leaf build_tree path_from root_of
  build_proof leaves name =
      let tree = build_tree leaves in
      elim (find_leaf name leaves) [
        | none ↦ record {
          leaf = [];
          proof = record { siblings = []; directions = [] };
          root = root_of tree;
        }
        | some (index, leaf) ↦ record {
          leaf = leaf.hash;
          proof = path_from tree index;
          root = root_of tree;
        }
      ]

  -- The loop of `verifyProof`; a missing direction counts as "right".
  unfoldable pub climb : Text → List Text → List Direction → Text
  climb computed [] directions = computed
  climb computed (sibling ∷ siblings) [] =
      climb (digest (combine right sibling computed)) siblings []
  climb computed (sibling ∷ siblings) (dir ∷ directions) =
      climb (digest (combine dir sibling computed)) siblings directions

  unfoldable pub verify_proof : Text → Text → MerkleProof → Bool
  unfolding climb
  verify_proof root leaf proof = text_eq (climb leaf proof.siblings proof.directions) root
