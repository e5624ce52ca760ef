-- ===== src/Prelude/Sorting.antt =====
-- `Array.prototype.sort` and the array functions beside it. `before a b` says that the comparison of
-- a with b is negative. The sort is stable, which fixes its result for a consistent comparison.
use Prim.Native.Nat.{suc, ◌≤◌}
use mathlib.Core.Path.{◌≡◌, refl}
use mathlib.Core.Bool.{Bool, true, false}
use mathlib.Core.Logic.{inl, inr}
use mathlib.Core.Option.{Option, none, some}
use mathlib.Core.List.{List, [], ◌∷◌, ◌++◌, Mem, mem-cons_self, mem-cons_of_mem}
use native.Mathlib.Omega.{arith}
use decentralized_dns.Prelude.Tests.{if◌then◌else◌, Bool-cases}
use decentralized_dns.Prelude.Lists.{length}
use decentralized_dns.Prelude.All.{All, All-map}

module _ {ℓ} {A : Type ℓ} where
  -- `xs.filter(p)`
  unfoldable pub filter : (A → Bool) → List A → List A
  filter p [] = []
  filter p (x ∷ xs) = let rest = filter p xs in if p x then x ∷ rest else rest

  -- `xs[0]`
  abbrev pub first : List A → Option A
  first [] = none
  first (x ∷ xs) = some x

  unfoldable pub insert_by : (A → A → Bool) → A → List A → List A
  insert_by before x [] = x ∷ []
  insert_by before x (y ∷ ys) =
      let rest = insert_by before x ys in if before y x then y ∷ rest else x ∷ y ∷ ys

  -- `xs.sort(compare)`
  unfoldable pub sort_by : (A → A → Bool) → List A → List A
  unfolding insert_by
  sort_by before [] = []
  sort_by before (x ∷ xs) = insert_by before x (sort_by before xs)

  pub filter-append :
      (p : A → Bool) (xs ys : List A) → filter p (xs ++ ys) ≡ filter p xs ++ filter p ys
  unfolding filter
  filter-append p [] ys = refl
  filter-append p (x ∷ xs) ys = elim (Bool-cases (p x)) [
    | inl e ↦ rw (e, filter-append p xs ys)
    | inr e ↦ rw (e, filter-append p xs ys)
  ]

  length-filter-insert_by :
      (before : A → A → Bool) (p : A → Bool) (x : A) (xs : List A)
      → length (filter p (insert_by before x xs)) ≡ length (filter p (x ∷ xs))
  unfolding insert_by filter
  length-filter-insert_by before p x [] = refl
  length-filter-insert_by before p x (y ∷ ys) =
      ground (arith, length-filter-insert_by before p x ys)

  -- A sort keeps how many elements pass a test.
  pub length-filter-sort_by :
      (before : A → A → Bool) (p : A → Bool) (xs : List A)
      → length (filter p (sort_by before xs)) ≡ length (filter p xs)
  unfolding sort_by filter
  length-filter-sort_by before p [] = refl
  length-filter-sort_by before p (x ∷ xs) = ground (
    arith,
    length-filter-insert_by before p x (sort_by before xs),
    length-filter-sort_by before p xs,
  )

  module _ {κ} (P : A → Type κ) where
    pub All-insert_by :
        (before : A → A → Bool) (x : A) (xs : List A)
        → P x
        → All P xs
        → All P (insert_by before x xs)
    unfolding insert_by
    All-insert_by before x [] h hs = (h, tt)
    All-insert_by before x (y ∷ ys) h (k, ks) = elim (Bool-cases (before y x)) [
      | inl e ↦ rw e (k, All-insert_by before x ys h ks)
      | inr e ↦ rw e (h, (k, ks))
    ]

    pub All-sort_by : (before : A → A → Bool) (xs : List A) → All P xs → All P (sort_by before xs)
    unfolding sort_by
    All-sort_by before [] h = tt
    All-sort_by before (x ∷ xs) (h, hs) =
        All-insert_by before x (sort_by before xs) h (All-sort_by before xs hs)

    pub All-filter : (p : A → Bool) (xs : List A) → All P xs → All P (filter p xs)
    unfolding filter
    All-filter p [] h = tt
    All-filter p (x ∷ xs) (h, hs) = elim (Bool-cases (p x)) [
      | inl e ↦ rw e (h, All-filter p xs hs)
      | inr e ↦ rw e (All-filter p xs hs)
    ]

  -- What a filter keeps passes its test.
  pub filter-All : (p : A → Bool) (xs : List A) → All (λ x. p x ≡ true) (filter p xs)
  unfolding filter
  filter-All p [] = tt
  filter-All p (x ∷ xs) = elim (Bool-cases (p x)) [
    | inl e ↦ rw e (e, filter-All p xs)
    | inr e ↦ rw e (filter-All p xs)
  ]

-- What the comparison of a sort has to be: nothing stands before what stands before it, and not to
-- stand before is transitive.
pub record WeakOrder {ℓ} {A : Type ℓ} (before : A → A → Bool) : Type ℓ where
  pub asymmetric : (a b : A) → before a b ≡ true → before b a ≡ false
  pub transitive : (a b c : A) → before a b ≡ false → before b c ≡ false → before a c ≡ false

module _ {ℓ} {A : Type ℓ} (before : A → A → Bool) where
  -- No element of the list stands before the given one.
  abbrev pub Least : A → List A → Type 0
  Least y xs = All (λ z. before z y ≡ false) xs

  pub irreflexive : WeakOrder before → (a : A) → before a a ≡ false
  irreflexive o a = elim (Bool-cases (before a a)) [ inl e ↦ o.asymmetric a a e | inr e ↦ e ]

  module _ {κ} (P : A → Type κ) where
    All_of_insert_by : (x : A) (ys : List A) → All P (insert_by before x ys) → P x × All P ys
    unfolding insert_by
    All_of_insert_by x [] h = h
    All_of_insert_by x (y ∷ ys) h = elim (Bool-cases (before y x)) [
      | inl e ↦
          let (p, q) : P y × All P (insert_by before x ys) = rw e at h in
          let rest = All_of_insert_by x ys q in (rest.0, (p, rest.1))
      | inr e ↦ rw e at h
    ]

    -- What holds of all of a sorted list held before the sort.
    pub All_of_sort_by : (xs : List A) → All P (sort_by before xs) → All P xs
    unfolding sort_by
    All_of_sort_by [] h = tt
    All_of_sort_by (x ∷ xs) h =
        let rest = All_of_insert_by x (sort_by before xs) h in (rest.0, All_of_sort_by xs rest.1)

  Least-trans :
      WeakOrder before → (x y : A) (ys : List A) → before y x ≡ false → Least y ys → Least x ys
  Least-trans o x y [] e h = tt
  Least-trans o x y (z ∷ ys) e (p, h) = (o.transitive z y x p e, Least-trans o x y ys e h)

  -- A list that starts with one of its least elements.
  data Led : List A → Type ℓ where
    none_leads : Led []
    leads : (y : A) (ys : List A) → Least y ys → Led (y ∷ ys)

  Led-insert_by : WeakOrder before → (x : A) (ys : List A) → Led ys → Led (insert_by before x ys)
  unfolding insert_by
  Led-insert_by o x [] l = leads x [] tt
  Led-insert_by o x (y ∷ ys) (leads _ _ h) = elim (Bool-cases (before y x)) [
    | inl e ↦ rw e (
        leads y (insert_by before x ys)
          (All-insert_by (λ z. before z y ≡ false) before x ys (o.asymmetric y x e) h))
    | inr e ↦ rw e (leads x (y ∷ ys) (e, Least-trans o x y ys e h))
  ]

  Led-sort_by : WeakOrder before → (xs : List A) → Led (sort_by before xs)
  unfolding sort_by
  Led-sort_by o [] = none_leads
  Led-sort_by o (x ∷ xs) = Led-insert_by o x (sort_by before xs) (Led-sort_by o xs)

  length-insert_by : (x : A) (ys : List A) → length (insert_by before x ys) ≡ suc (length ys)
  unfolding insert_by
  length-insert_by x [] = refl
  length-insert_by x (y ∷ ys) = ground (arith, length-insert_by x ys)

  pub length-sort_by : (xs : List A) → length (sort_by before xs) ≡ length xs
  unfolding sort_by
  length-sort_by [] = refl
  length-sort_by (x ∷ xs) = omega (arith, length-insert_by x (sort_by before xs), length-sort_by xs)

  -- The first element of a sorted list.
  pub record FirstOf {κ} (P : A → Type κ) (xs : List A) (found : Option A) : Type (ℓ ⊔ κ) where
    pub it : A
    pub found_it : found ≡ some it
    pub holds : P it
    pub least : Least it xs

  module _ {κ} (P : A → Type κ) (o : WeakOrder before) where
    FirstOf-Led : (ys : List A) → Led ys → 1 ≤ length ys → All P ys → FirstOf P ys (first ys)
    FirstOf-Led [] l n h = absurd (omega arith)
    FirstOf-Led (_ ∷ _) (leads y ys k) n (p, h) = record {
      it = y;
      found_it = refl;
      holds = p;
      least = (irreflexive o y, k);
    }

    pub first-sort_by :
        (xs : List A) → 1 ≤ length xs → All P xs → FirstOf P xs (first (sort_by before xs))
    first-sort_by xs n h =
        let f =
          FirstOf-Led (sort_by before xs) (Led-sort_by o xs) (rw (length-sort_by xs) n)
            (All-sort_by P before xs h) in
        record {
          it = f.it;
          found_it = f.found_it;
          holds = f.holds;
          least = All_of_sort_by (λ z. before z f.it ≡ false) xs f.least;
        }

module _ {ℓ} {A : Type ℓ} where
  -- An empty filter passes nothing.
  pub All_of_filter :
      (p : A → Bool) (xs : List A) → length (filter p xs) ≡ 0 → All (λ x. p x ≡ false) xs
  unfolding filter
  All_of_filter p [] e = tt
  All_of_filter p (x ∷ xs) e = elim (Bool-cases (p x)) [
    | inl t ↦ absurd (ground arith)
    | inr t ↦ (t, All_of_filter p xs (ground arith))
  ]

  -- The elements of a list are members of it.
  pub All-Mem : (xs : List A) → All (λ x. Mem x xs) xs
  All-Mem [] = tt
  All-Mem (x ∷ xs) = (
    mem-cons_self,
    All-map (λ y. Mem y xs) (λ y. Mem y (x ∷ xs)) xs (λ y h. mem-cons_of_mem x h) (All-Mem xs),
  )
