-- ===== src/RouteSet/Order/Compare.antt =====
-- The comparison of records as an order: total, transitive, and antisymmetric up to the class.
use decentralized_dns.Prelude.{
  sym, ap, subst, ◌∙◌, Bool-cases, ◌≡◌, refl, Bool, true, false, [], ◌∷◌, arith, Number, int, ℤ,
  pos, ◌-ℤ◌, ◌<ℤ◌, leb_ℤ, ◌↔◌, ◌⊎◌, inl, inr,
}
use decentralized_dns.Bytes.{Bytes}
use decentralized_dns.RouteSet.{RecordV1, compare_bytes, unless_zero, compare_records, as_integer}

le_bytes : Bytes → Bytes → Bool
le_bytes xs ys = leb_ℤ (compare_bytes xs ys) (pos 0)

total_bytes : (xs ys : Bytes) → le_bytes xs ys ≡ false → le_bytes ys xs ≡ true
unfolding le_bytes compare_bytes
total_bytes [] [] h = ground arith
total_bytes [] (y ∷ ys) h = ground arith
total_bytes (x ∷ xs) [] h = ground arith
total_bytes (x ∷ xs) (y ∷ ys) h = ground (arith, total_bytes xs ys)

antisym_bytes : (xs ys : Bytes) → le_bytes xs ys ≡ true → le_bytes ys xs ≡ true → xs ≡ ys
unfolding le_bytes compare_bytes
antisym_bytes [] [] h k = refl
antisym_bytes [] (y ∷ ys) h k = ground arith
antisym_bytes (x ∷ xs) [] h k = ground arith
antisym_bytes (x ∷ xs) (y ∷ ys) h k = ground (arith, antisym_bytes xs ys)

trans_bytes :
    (xs ys zs : Bytes) → le_bytes xs ys ≡ true → le_bytes ys zs ≡ true → le_bytes xs zs ≡ true
unfolding le_bytes compare_bytes
trans_bytes [] [] zs h k = k
trans_bytes [] (y ∷ ys) [] h k = ground arith
trans_bytes [] (y ∷ ys) (z ∷ zs) h k = ground arith
trans_bytes (x ∷ xs) [] zs h k = ground arith
trans_bytes (x ∷ xs) (y ∷ ys) [] h k = ground arith
trans_bytes (x ∷ xs) (y ∷ ys) (z ∷ zs) h k = ground (arith, trans_bytes xs ys zs)

abbrev le_zero : ℤ → Bool
le_zero z = leb_ℤ z (pos 0)

-- A first difference decides; a tie is left to the rest.
lex_iff :
    (x y rest : ℤ)
    → (le_zero (unless_zero (x -ℤ y) rest) ≡ true) ↔ ((x <ℤ y) ⊎ ((x ≡ y) × (le_zero rest ≡ true)))
unfolding unless_zero ◌-ℤ◌
lex_iff x y rest = ground arith

unfoldable pub le_records : RecordV1 → RecordV1 → Bool
le_records a b = leb_ℤ (compare_records a b) (pos 0)

-- The order, stated without the comparison's arithmetic.
abbrev Le : RecordV1 → RecordV1 → Type 0
Le a b =
    (as_integer a.rr_type <ℤ as_integer b.rr_type)
    ⊎ ((as_integer a.rr_type ≡ as_integer b.rr_type)
        × ((as_integer a.ttl <ℤ as_integer b.ttl)
            ⊎ ((as_integer a.ttl ≡ as_integer b.ttl) × (le_bytes a.rdata b.rdata ≡ true))))

le_records_iff : (a b : RecordV1) → (le_records a b ≡ true) ↔ Le a b
unfolding le_records compare_records le_bytes
le_records_iff a b =
    let by_ttl =
      unless_zero (as_integer a.ttl -ℤ as_integer b.ttl) (compare_bytes a.rdata b.rdata) in
    let (t, t') = lex_iff (as_integer a.rr_type) (as_integer b.rr_type) by_ttl in
    let (l, l') = lex_iff (as_integer a.ttl) (as_integer b.ttl) (compare_bytes a.rdata b.rdata) in
    (
      λ h. elim (t h) [ inl lt ↦ inl lt | inr eq ↦ inr (eq.0, l eq.1) ],
      elim [ inl lt ↦ t' (inl lt) | inr eq ↦ t' (inr (eq.0, l' eq.1)) ],
    )

tri_ℤ : (x y : ℤ) → (x <ℤ y) ⊎ ((y <ℤ x) ⊎ (x ≡ y))
tri_ℤ x y = ground arith

Le-total : (a b : RecordV1) → Le a b ⊎ Le b a
Le-total a b = elim (tri_ℤ (as_integer a.rr_type) (as_integer b.rr_type)) [
  | inl lt ↦ inl (inl lt)
  | inr (inl gt) ↦ inr (inl gt)
  | inr (inr eq) ↦ elim (tri_ℤ (as_integer a.ttl) (as_integer b.ttl)) [
    | inl lt ↦ inl (inr (eq, inl lt))
    | inr (inl gt) ↦ inr (inr (sym eq, inl gt))
    | inr (inr same) ↦ elim (Bool-cases (le_bytes a.rdata b.rdata)) [
      | inl le ↦ inl (inr (eq, inr (same, le)))
      | inr not_le ↦ inr (inr (sym eq, inr (sym same, total_bytes a.rdata b.rdata not_le)))
    ]
  ]
]

Le-trans : (a b c : RecordV1) → Le a b → Le b c → Le a c
Le-trans a b c (inl h) (inl k) = inl (omega arith)
Le-trans a b c (inl h) (inr (e, k)) = inl (subst (λ z. as_integer a.rr_type <ℤ z) e h)
Le-trans a b c (inr (e, h)) (inl k) = inl (subst (λ z. z <ℤ as_integer c.rr_type) (sym e) k)
Le-trans a b c (inr (e, inl h)) (inr (f, inl k)) = inr (e ∙ f, inl (omega arith))
Le-trans a b c (inr (e, inl h)) (inr (f, inr (g, k))) =
    inr (e ∙ f, inl (subst (λ z. as_integer a.ttl <ℤ z) g h))
Le-trans a b c (inr (e, inr (g, h))) (inr (f, inl k)) =
    inr (e ∙ f, inl (subst (λ z. z <ℤ as_integer c.ttl) (sym g) k))
Le-trans a b c (inr (e, inr (g, h))) (inr (f, inr (i, k))) =
    inr (e ∙ f, inr (g ∙ i, trans_bytes a.rdata b.rdata c.rdata h k))

irrefl_ℤ : (x y : ℤ) → x <ℤ y → x ≡ y → ⊥
irrefl_ℤ x y h e = ground arith

-- Records that are not told apart have the same type, TTL and data.
Le-antisym :
    (a b : RecordV1)
    → Le a b
    → Le b a
    → (as_integer a.rr_type ≡ as_integer b.rr_type)
      × (as_integer a.ttl ≡ as_integer b.ttl)
      × (a.rdata ≡ b.rdata)
Le-antisym a b (inl h) (inl k) = absurd (omega arith)
Le-antisym a b (inl h) (inr (e, k)) = absurd (irrefl_ℤ _ _ h (sym e))
Le-antisym a b (inr (e, h)) (inl k) = absurd (irrefl_ℤ _ _ k (sym e))
Le-antisym a b (inr (e, inl h)) (inr (f, inl k)) = absurd (omega arith)
Le-antisym a b (inr (e, inl h)) (inr (f, inr (g, k))) = absurd (irrefl_ℤ _ _ h (sym g))
Le-antisym a b (inr (e, inr (g, h))) (inr (f, inl k)) = absurd (irrefl_ℤ _ _ k (sym g))
Le-antisym a b (inr (e, inr (g, h))) (inr (f, inr (i, k))) =
    (e, g, antisym_bytes a.rdata b.rdata h k)

pub le_records-total : (a b : RecordV1) → le_records a b ≡ false → le_records b a ≡ true
le_records-total a b h = elim (Le-total a b) [
  | inl le ↦ cc ((le_records_iff a b).1 le)
  | inr ge ↦ (le_records_iff b a).1 ge
]

pub le_records_trans :
    (a b c : RecordV1) → le_records a b ≡ true → le_records b c ≡ true → le_records a c ≡ true
le_records_trans a b c h k =
    (le_records_iff a c).1 (Le-trans a b c ((le_records_iff a b).0 h) ((le_records_iff b c).0 k))

-- Records of one class whose type and TTL are integers.
abbrev pub Uniform : Number → RecordV1 → Type 0
Uniform c r =
    (r.rr_class ≡ c) × (r.rr_type ≡ int (as_integer r.rr_type)) × (r.ttl ≡ int (as_integer r.ttl))

pub le_records-antisym :
    (c : Number) (a b : RecordV1)
    → Uniform c a
    → Uniform c b
    → le_records a b ≡ true
    → le_records b a ≡ true
    → a ≡ b
le_records-antisym c a b u v h k =
    let (t, l, d) = Le-antisym a b ((le_records_iff a b).0 h) ((le_records_iff b a).0 k) in
    cc (u.0, u.1, u.2, v.0, v.1, v.2, ap int t, ap int l)
