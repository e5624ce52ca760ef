-- ===== src/Merkle/Tests.antt =====
-- Runs of the Merkle tree, and the properties of Merkle at a registry of three names.
use decentralized_dns.Prelude.{
  ℕ, ◌≡◌, ◌⊎◌, refl, true, some, List, [], ◌∷◌, ◌++◌, length, get_elem?, replicate, Text, codes,
  text_eq, take, arith, length-append, length-take,
}
use decentralized_dns.Merkle.{
  Leaf, left, right, MerkleProof, build_merkle_root, build_proof, verify_proof,
}
use decentralized_dns.Merkle.Membership.{has_name, verify_proof-build_proof}
use decentralized_dns.Merkle.Binding.{Collision, verify_proof_binding}

runs : Unit {0}
unfolding build_merkle_root build_proof verify_proof text_eq
runs = tt

-- A stand-in for the hash: the last four code units, padded in front.
abbrev toy_digest : Text → Text
toy_digest x = take 4 (x ++ replicate 4 48)

length-toy_digest : (x : Text) → length (toy_digest x) ≡ 4
length-toy_digest x =
    omega (arith, length-take 4 (x ++ replicate 4 48), length-append x (replicate 4 48))

abbrev registry : List Leaf
registry =
    record { name = codes "a.dns"; hash = codes "aaaa" }
    ∷ record { name = codes "b.dns"; hash = codes "bbbb" }
    ∷ record { name = codes "c.dns"; hash = codes "cccc" }
    ∷ []

root_runs : build_merkle_root toy_digest registry ≡ codes "aaaa"
unfolding runs
root_runs = refl

has_c : has_name (codes "c.dns") registry ≡ true
unfolding text_eq
has_c = refl

-- An empty registry has the hash of the empty text as its root, and the empty text as the root in
-- the answer of `buildProof`.
empty_roots :
    (build_merkle_root toy_digest [] ≡ codes "0000")
    × ((build_proof toy_digest [] (codes "c.dns")).root ≡ [])
unfolding runs
empty_roots = (refl, refl)

verify_proof-build_proof_example :
    (verify_proof toy_digest
        (build_merkle_root toy_digest registry)
        (build_proof toy_digest registry (codes "c.dns")).leaf
        (build_proof toy_digest registry (codes "c.dns")).proof
      ≡ true)
    × ((build_proof toy_digest registry (codes "c.dns")).root
        ≡ build_merkle_root toy_digest registry)
    × ((i : ℕ) × (leaf : Leaf) × (get_elem? registry i ≡ some leaf)
        × (leaf.name ≡ codes "c.dns")
        × ((build_proof toy_digest registry (codes "c.dns")).leaf ≡ leaf.hash))
verify_proof-build_proof_example =
    verify_proof-build_proof toy_digest registry (codes "c.dns") has_c

abbrev proof_c : MerkleProof
proof_c = record { siblings = codes "cccc" ∷ codes "aaaa" ∷ []; directions = right ∷ left ∷ [] }

c_verifies : verify_proof toy_digest (codes "aaaa") (codes "cccc") proof_c ≡ true
unfolding runs
c_verifies = refl

verify_proof_binding_example :
    ((codes "cccc" ≡ codes "cccc") × (proof_c.siblings ≡ proof_c.siblings)) ⊎ Collision toy_digest
verify_proof_binding_example =
    verify_proof_binding toy_digest 4 length-toy_digest (codes "aaaa") (codes "cccc") (codes "cccc")
      proof_c proof_c refl refl refl refl (refl, (refl, tt)) (refl, (refl, tt)) c_verifies
      c_verifies
