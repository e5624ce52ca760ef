-- ===== src/Prelude/Ordered.antt =====
-- What a sort orders, for a comparison that is consistent on the elements of a domain.
use mathlib.Core.Path.{◌≡◌}
use mathlib.Core.Bool.{Bool, true, false}
use mathlib.Core.Logic.{inl, inr}
use mathlib.Core.List.{List, [], ◌∷◌}
use Prim.Native.Nat.{ℕ, zero, suc}
use decentralized_dns.Prelude.Tests.{Bool-cases}
use decentralized_dns.Prelude.Lists.{take, drop}
use decentralized_dns.Prelude.All.{All, All-both, All-drop}
use decentralized_dns.Prelude.Sorting.{insert_by, sort_by, All-insert_by, All-sort_by}

pub record WeakOrderOn {ℓ κ} {A : Type ℓ} (D : A → Type κ) (before : A → A → Bool)
    : Type (ℓ ⊔ κ) where
  pub asymmetric : (a b : A) → before a b ≡ true → before b a ≡ false
  pub transitive :
      (a b c : A) → D a → D b → D c → before a b ≡ false → before b c ≡ false → before a c ≡ false

module _ {ℓ κ} {A : Type ℓ} (D : A → Type κ) (before : A → A → Bool) where
  -- Nothing in the list stands before an element in front of it.
  abbrev pub Ordered : List A → Type 0
  Ordered [] = Unit
  Ordered (x ∷ xs) = All (λ z. before z x ≡ false) xs × Ordered xs

  Least-below :
      WeakOrderOn D before
      → (x y : A) (ys : List A) → D x
      → D y
      → All D ys
      → before y x ≡ false
      → All (λ z. before z y ≡ false) ys
      → All (λ z. before z x ≡ false) ys
  Least-below o x y [] dx dy ds e h = tt
  Least-below o x y (z ∷ ys) dx dy (dz, ds) e (p, h) =
      (o.transitive z y x dz dy dx p e, Least-below o x y ys dx dy ds e h)

  Ordered-insert_by :
      WeakOrderOn D before
      → (x : A) (ys : List A) → D x
      → All D ys
      → Ordered ys
      → Ordered (insert_by before x ys)
  unfolding insert_by
  Ordered-insert_by o x [] dx ds h = (tt, tt)
  Ordered-insert_by o x (y ∷ ys) dx (dy, ds) (p, h) = elim (Bool-cases (before y x)) [
    | inl e ↦ rw e (
      All-insert_by (λ z. before z y ≡ false) before x ys (o.asymmetric y x e) p,
      Ordered-insert_by o x ys dx ds h,
    )
    | inr e ↦ rw e ((e, Least-below o x y ys dx dy ds e p), (p, h))
  ]

  pub Ordered-sort_by :
      WeakOrderOn D before → (xs : List A) → All D xs → Ordered (sort_by before xs)
  unfolding sort_by
  Ordered-sort_by o [] ds = tt
  Ordered-sort_by o (x ∷ xs) (dx, ds) =
      Ordered-insert_by o x (sort_by before xs) dx (All-sort_by D before xs ds)
        (Ordered-sort_by o xs ds)

  -- What stands behind a cut stands before nothing that is in front of the cut.
  abbrev pub Behind : List A → A → Type 0
  Behind front z = All (λ g. before z g ≡ false) front

  Behind-nothing : (xs : List A) → All (Behind []) xs
  Behind-nothing [] = tt
  Behind-nothing (x ∷ xs) = (tt, Behind-nothing xs)

  pub Ordered-drop : (n : ℕ) (xs : List A) → Ordered xs → All (Behind (take n xs)) (drop n xs)
  Ordered-drop zero xs h = Behind-nothing xs
  Ordered-drop (suc n) [] h = tt
  Ordered-drop (suc n) (x ∷ xs) (p, h) =
      All-both (λ z. before z x ≡ false) (Behind (take n xs)) (drop n xs)
        (All-drop (λ z. before z x ≡ false) n xs p) (Ordered-drop n xs h)
