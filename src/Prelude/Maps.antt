-- ===== src/Prelude/Maps.antt =====
-- A JavaScript `Map` with text keys, as the list of its entries in the order of their first insertion.
use native.Mathlib.Omega.{arith}
use mathlib.Core.Path.{◌≡◌, subst}
use mathlib.Core.Bool.{false}
use mathlib.Core.Logic.{inl, inr}
use mathlib.Core.Option.{Option, none, some}
use mathlib.Core.List.{List, [], ◌∷◌}
use Prim.Native.Nat.{◌≤◌}
use decentralized_dns.Prelude.Lists.{length}
use decentralized_dns.Prelude.All.{All}
use decentralized_dns.Prelude.Tests.{if◌then◌else◌, Bool-cases}
use decentralized_dns.Prelude.Doubles.{given}
use decentralized_dns.Prelude.Strings.{Text, text_eq, text_eq_iff, text_eq_refl}

module _ {ℓ} {A : Type ℓ} where
  -- `map.get(key)`
  unfoldable pub lookup : Text → List (Text × A) → Option A
  lookup k [] = none
  lookup k ((j, a) ∷ entries) = if text_eq j k then some a else lookup k entries

  -- `map.set(key, value)`
  unfoldable pub assign : Text → A → List (Text × A) → List (Text × A)
  assign k v [] = (k, v) ∷ []
  assign k v ((j, a) ∷ entries) =
      if text_eq j k then (j, v) ∷ entries else (j, a) ∷ assign k v entries

  pub lookup-assign :
      (k : Text) (v : A) (entries : List (Text × A)) → lookup k (assign k v entries) ≡ some v
  unfolding lookup assign
  lookup-assign k v [] = rw (text_eq_refl k)
  lookup-assign k v ((j, a) ∷ entries) = elim (Bool-cases (text_eq j k)) [
    | inl e ↦ rw (e, e)
    | inr e ↦ rw (e, e, lookup-assign k v entries)
  ]

  pub lookup-assign_other :
      (k j : Text) (v : A) (entries : List (Text × A))
      → text_eq k j ≡ false
      → lookup j (assign k v entries) ≡ lookup j entries
  unfolding lookup assign
  lookup-assign_other k j v [] ne = rw ne
  lookup-assign_other k j v ((i, a) ∷ entries) ne = elim (Bool-cases (text_eq i k)) [
    | inl e ↦ let apart : text_eq i j ≡ false = rw ((text_eq_iff i k).0 e) ne in rw (e, apart)
    | inr e ↦ rw (e, lookup-assign_other k j v entries ne)
  ]

  -- All lookups after an assignment.
  pub lookup-assign_if :
      (k j : Text) (v : A) (entries : List (Text × A))
      → lookup j (assign k v entries) ≡ (if text_eq k j then some v else lookup j entries)
  lookup-assign_if k j v entries = elim (Bool-cases (text_eq k j)) [
    | inl e ↦ let same = (text_eq_iff k j).0 e in rw (e, ← same, lookup-assign k v entries)
    | inr e ↦ rw (e, lookup-assign_other k j v entries e)
  ]

  -- The same for the value with a default.
  pub given-lookup-assign :
      (k j : Text) (v default : A) (entries : List (Text × A))
      → given (lookup j (assign k v entries)) default
        ≡ (if text_eq k j then v else given (lookup j entries) default)
  given-lookup-assign k j v default entries = elim (Bool-cases (text_eq k j)) [
    | inl e ↦ rw (lookup-assign_if k j v entries, e)
    | inr e ↦ rw (lookup-assign_if k j v entries, e)
  ]

  -- A map is not empty after an assignment.
  pub length-assign :
      (k : Text) (v : A) (entries : List (Text × A)) → 1 ≤ length (assign k v entries)
  unfolding assign
  length-assign k v [] = omega arith
  length-assign k v ((j, a) ∷ entries) = ground arith

  module _ {κ} (P : Text → A → Type κ) where
    -- What holds of every entry still does after an assignment of a value of which it holds.
    pub All-assign :
        (k : Text) (v : A) (entries : List (Text × A))
        → P k v
        → All (λ e. P e.0 e.1) entries
        → All (λ e. P e.0 e.1) (assign k v entries)
    unfolding assign
    All-assign k v [] h hs = (h, tt)
    All-assign k v ((j, a) ∷ entries) h (p, hs) = elim (Bool-cases (text_eq j k)) [
      | inl e ↦ rw e (let same = (text_eq_iff j k).0 e in (rw same h, hs))
      | inr e ↦ rw e (p, All-assign k v entries h hs)
    ]

    pub All-lookup :
        (k : Text) (entries : List (Text × A)) (v : A)
        → All (λ e. P e.0 e.1) entries
        → lookup k entries ≡ some v
        → P k v
    unfolding lookup
    All-lookup k [] v hs e = cc
    All-lookup k ((j, a) ∷ entries) v (p, hs) e = elim (Bool-cases (text_eq j k)) [
      | inl t ↦
          let same = (text_eq_iff j k).0 t in subst (λ i. P i v) same (subst (P j) (ground arith) p)
      | inr t ↦ All-lookup k entries v hs (ground arith)
    ]
