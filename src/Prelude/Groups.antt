-- ===== src/Prelude/Groups.antt =====
-- A JavaScript `Map` whose values are arrays, filled by pushing every element of a list onto the
-- array of its key.
use Prim.Native.Nat.{◌+◌, ◌≤◌}
use mathlib.Core.Path.{◌≡◌, refl}
use mathlib.Core.Bool.{Bool, true}
use mathlib.Core.Logic.{inl, inr}
use mathlib.Core.Option.{Option, none, some}
use mathlib.Core.List.{List, [], ◌∷◌, ◌++◌, append_assoc, append-nil}
use native.Mathlib.Omega.{arith}
use decentralized_dns.Prelude.Tests.{Bool-cases}
use decentralized_dns.Prelude.Lists.{length, length-append}
use decentralized_dns.Prelude.All.{All, All-append}
use decentralized_dns.Prelude.Doubles.{given}
use decentralized_dns.Prelude.Strings.{Text, text_eq, text_eq_iff, text_eq_refl}
use decentralized_dns.Prelude.Maps.{
  lookup, assign, given-lookup-assign, length-assign, All-assign, All-lookup,
}
use decentralized_dns.Prelude.Sorting.{filter, filter-append}

module _ {ℓ} {A : Type ℓ} (key : A → Text) where
  -- `map.get(key) || []`
  abbrev pub bucket_of : Text → List (Text × List A) → List A
  bucket_of k groups = given (lookup k groups) []

  -- `const bucket = map.get(key) || []; bucket.push(x); map.set(key, bucket)`
  abbrev pub push_into : A → List (Text × List A) → List (Text × List A)
  push_into x groups = assign (key x) (bucket_of (key x) groups ++ (x ∷ [])) groups

  -- The loop over the list.
  unfoldable pub group_onto : List (Text × List A) → List A → List (Text × List A)
  group_onto groups [] = groups
  group_onto groups (x ∷ xs) = group_onto (push_into x groups) xs

  abbrev pub with_key : Text → A → Bool
  with_key k x = text_eq (key x) k

  bucket_of-group_onto :
      (k : Text) (groups : List (Text × List A)) (xs : List A)
      → bucket_of k (group_onto groups xs) ≡ bucket_of k groups ++ filter (with_key k) xs
  unfolding group_onto filter
  bucket_of-group_onto k groups [] = rw append-nil
  bucket_of-group_onto k groups (x ∷ xs) = elim (Bool-cases (text_eq (key x) k)) [
    | inl e ↦
        let same = (text_eq_iff (key x) k).0 e in
        rw (bucket_of-group_onto k (push_into x groups) xs, given-lookup-assign, e, same)
          (append_assoc (bucket_of k groups) (x ∷ []) (filter (with_key k) xs))
    | inr e ↦ rw (bucket_of-group_onto k (push_into x groups) xs, given-lookup-assign, e)
  ]

  -- The array of a key holds the elements with that key, in their order.
  pub bucket_of-group :
      (k : Text) (xs : List A) → bucket_of k (group_onto [] xs) ≡ filter (with_key k) xs
  unfolding lookup
  bucket_of-group k xs = bucket_of-group_onto k [] xs

  -- An entry of the map of the elements seen so far.
  pub record Grouped (seen : List A) (k : Text) (bucket : List A) : Type ℓ where
    pub same : All (λ x. with_key k x ≡ true) bucket
    pub counted : length bucket ≤ length (filter (with_key k) seen)
    pub occupied : 1 ≤ length bucket

  Grouped-more :
      (seen : List A) (x : A) (k : Text) (bucket : List A)
      → Grouped seen k bucket
      → Grouped (seen ++ (x ∷ [])) k bucket
  Grouped-more seen x k bucket g = record {
    same = g.same;
    counted = rw (filter-append (with_key k) seen (x ∷ [])) (
        omega (
          arith,
          g.counted,
          length-append (filter (with_key k) seen) (filter (with_key k) (x ∷ [])),
        ));
    occupied = g.occupied;
  }

  Grouped-push :
      (seen : List A) (x : A) (bucket : List A)
      → All (λ y. with_key (key x) y ≡ true) bucket
      → length bucket ≤ length (filter (with_key (key x)) seen)
      → Grouped (seen ++ (x ∷ [])) (key x) (bucket ++ (x ∷ []))
  unfolding filter
  Grouped-push seen x bucket same counted = record {
    same =
        All-append (λ y. with_key (key x) y ≡ true) bucket (x ∷ []) same (text_eq_refl (key x), tt);
    counted =
        rw (filter-append (with_key (key x)) seen (x ∷ []), text_eq_refl (key x))
          (omega (
            arith,
            length-append bucket (x ∷ []),
            length-append (filter (with_key (key x)) seen) (x ∷ []),
          ));
    occupied = omega (arith, length-append bucket (x ∷ []));
  }

  All-Grouped-more :
      (seen : List A) (x : A) (groups : List (Text × List A))
      → All (λ e. Grouped seen e.0 e.1) groups
      → All (λ e. Grouped (seen ++ (x ∷ [])) e.0 e.1) groups
  All-Grouped-more seen x [] h = tt
  All-Grouped-more seen x ((k, b) ∷ groups) (g, h) =
      (Grouped-more seen x k b g, All-Grouped-more seen x groups h)

  bucket-Grouped :
      (seen : List A) (x : A) (groups : List (Text × List A)) (found : Option (List A))
      → lookup (key x) groups ≡ found
      → All (λ e. Grouped seen e.0 e.1) groups
      → Grouped (seen ++ (x ∷ [])) (key x) (given found [] ++ (x ∷ []))
  bucket-Grouped seen x groups none e h = Grouped-push seen x [] tt (omega arith)
  bucket-Grouped seen x groups (some b) e h =
      let g = All-lookup (Grouped seen) (key x) groups b h e in
      Grouped-push seen x b g.same g.counted

  group_onto-Grouped :
      (seen : List A) (groups : List (Text × List A)) (xs : List A)
      → All (λ e. Grouped seen e.0 e.1) groups
      → All (λ e. Grouped (seen ++ xs) e.0 e.1) (group_onto groups xs)
  unfolding group_onto
  group_onto-Grouped seen groups [] h = rw (append-nil seen) h
  group_onto-Grouped seen groups (x ∷ xs) h = rw (← append_assoc seen (x ∷ []) xs) (
      group_onto-Grouped (seen ++ (x ∷ [])) (push_into x groups) xs (
        All-assign (Grouped (seen ++ (x ∷ []))) (key x) (bucket_of (key x) groups ++ (x ∷ []))
          groups (bucket-Grouped seen x groups (lookup (key x) groups) refl h)
          (All-Grouped-more seen x groups h)))

  -- Every array of the map holds elements of one key, and no more than there are.
  pub group-Grouped : (xs : List A) → All (λ e. Grouped xs e.0 e.1) (group_onto [] xs)
  group-Grouped xs = group_onto-Grouped [] [] xs tt

  length-group_onto :
      (xs : List A) (groups : List (Text × List A))
      → 1 ≤ length xs + length groups
      → 1 ≤ length (group_onto groups xs)
  unfolding group_onto
  length-group_onto [] groups n = omega arith
  length-group_onto (x ∷ xs) groups n =
      length-group_onto xs (push_into x groups)
        (omega (arith, length-assign (key x) (bucket_of (key x) groups ++ (x ∷ [])) groups))

  pub length-group : (xs : List A) → 1 ≤ length xs → 1 ≤ length (group_onto [] xs)
  length-group xs n = length-group_onto xs [] (omega arith)

  module _ {κ} (P : A → Type κ) where
    All-bucket :
        (k : Text) (groups : List (Text × List A)) (found : Option (List A))
        → lookup k groups ≡ found
        → All (λ e. All P e.1) groups
        → All P (given found [])
    All-bucket k groups none e h = tt
    All-bucket k groups (some b) e h = All-lookup (λ _ c. All P c) k groups b h e

    All-group_onto :
        (xs : List A) (groups : List (Text × List A))
        → All (λ e. All P e.1) groups
        → All P xs
        → All (λ e. All P e.1) (group_onto groups xs)
    unfolding group_onto
    All-group_onto [] groups h k = h
    All-group_onto (x ∷ xs) groups h (p, k) =
        let bucket =
          All-append P (bucket_of (key x) groups) (x ∷ [])
            (All-bucket (key x) groups (lookup (key x) groups) refl h) (p, tt) in
        All-group_onto xs (push_into x groups)
          (All-assign (λ _ c. All P c) (key x) (bucket_of (key x) groups ++ (x ∷ [])) groups bucket
            h)
          k

    pub All-group : (xs : List A) → All P xs → All (λ e. All P e.1) (group_onto [] xs)
    All-group xs k = All-group_onto xs [] tt k
