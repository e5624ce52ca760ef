-- ===== src/RouteSet/Order/Canonical.antt =====
-- Sorting records: a permutation in order, and one result for every order of uniform records.
use mathlib.Core.List.{Perm, Permᴰ}
use mathlib.Core.List.Perm
use mathlib.Core.Path.{ap₂}
use mathlib.Core.Logic.{∥∥₁_elim}
use decentralized_dns.Prelude.{
  subst, ==_refl, ◌-ℤ◌, int_laws, ◌≡◌, ◌≢◌, refl, sym, ap, ◌∙◌, true, List, [], ◌∷◌, arith, pos,
  if◌then◌else◌, Bool-cases, inl, inr, Number, ℤ,
}
use decentralized_dns.Prelude.All.{All}
use decentralized_dns.Bytes.{Bytes}
use decentralized_dns.RouteSet.{
  as_integer, unless_zero, compare_bytes, RecordV1, compare_records, insert_record,
  sort_records_canonical,
}
use decentralized_dns.RouteSet.Order.Compare.{
  le_records, le_records-total, le_records_trans, le_records-antisym, Uniform,
}

insert_record-nil : (r : RecordV1) → insert_record r [] ≡ r ∷ []
unfolding insert_record
insert_record-nil r = refl

insert_record-cons :
    (r x : RecordV1) (xs : List RecordV1)
    → insert_record r (x ∷ xs) ≡ (if le_records r x then r ∷ x ∷ xs else x ∷ insert_record r xs)
unfolding insert_record le_records
insert_record-cons r x xs = refl

insert_record-perm : (r : RecordV1) (rs : List RecordV1) → Perm (insert_record r rs) (r ∷ rs)
unfolding insert_record
insert_record-perm r [] = Perm.refl (r ∷ [])
insert_record-perm r (x ∷ xs) = elim (Bool-cases (le_records r x)) [
  | inl le ↦ rw (insert_record-cons r x xs, le) (Perm.refl (r ∷ x ∷ xs))
  | inr gt ↦
      rw (insert_record-cons r x xs, gt)
        (Perm.trans (Perm.cons x (insert_record-perm r xs)) (Perm.swap r x xs))
]

-- The canonical order keeps every record as often as it stands in the route set.
pub sort_records_canonical-perm : (rs : List RecordV1) → Perm (sort_records_canonical rs) rs
unfolding sort_records_canonical
sort_records_canonical-perm [] = Perm.refl []
sort_records_canonical-perm (r ∷ rs) =
    Perm.trans (insert_record-perm r (sort_records_canonical rs))
      (Perm.cons r (sort_records_canonical-perm rs))

-- Each record comes before every later one.
abbrev pub IsSorted : List RecordV1 → Type 0
IsSorted [] = Unit
IsSorted (r ∷ rs) = All (λ x. le_records r x ≡ true) rs × IsSorted rs

All-insert :
    (b r : RecordV1) (rs : List RecordV1)
    → le_records b r ≡ true
    → All (λ x. le_records b x ≡ true) rs
    → All (λ x. le_records b x ≡ true) (insert_record r rs)
unfolding insert_record
All-insert b r [] h k = (h, tt)
All-insert b r (x ∷ xs) h (p, k) =
    rw (insert_record-cons r x xs) (ground (arith, All-insert b r xs h k))

All-le_trans :
    (b r : RecordV1) (rs : List RecordV1)
    → le_records b r ≡ true
    → All (λ x. le_records r x ≡ true) rs
    → All (λ x. le_records b x ≡ true) rs
All-le_trans b r [] h k = tt
All-le_trans b r (x ∷ xs) h (p, k) = (le_records_trans b r x h p, All-le_trans b r xs h k)

insert_record-IsSorted :
    (r : RecordV1) (rs : List RecordV1) → IsSorted rs → IsSorted (insert_record r rs)
unfolding insert_record
insert_record-IsSorted r [] h = (tt, tt)
insert_record-IsSorted r (x ∷ xs) (p, h) = elim (Bool-cases (le_records r x)) [
  | inl le ↦
      let k = All-le_trans r x xs le p in rw (insert_record-cons r x xs, le) ((le, k), (p, h))
  | inr gt ↦
      let ge = le_records-total r x gt in
      let k = All-insert x r xs ge p in
      let s = insert_record-IsSorted r xs h in rw (insert_record-cons r x xs, gt) (k, s)
]

pub sort_records_canonical-IsSorted : (rs : List RecordV1) → IsSorted (sort_records_canonical rs)
unfolding sort_records_canonical
sort_records_canonical-IsSorted [] = tt
sort_records_canonical-IsSorted (r ∷ rs) =
    insert_record-IsSorted r (sort_records_canonical rs) (sort_records_canonical-IsSorted rs)

-- The outcome of inserting two records does not depend on which goes first.
insert_record_comm :
    (c : Number) (a b : RecordV1) (rs : List RecordV1)
    → Uniform c a
    → Uniform c b
    → insert_record a (insert_record b rs) ≡ insert_record b (insert_record a rs)
insert_record_comm c a b [] u v = ground (
  arith,
  insert_record-nil a,
  insert_record-nil b,
  insert_record-cons a b [],
  insert_record-cons b a [],
  le_records-total a b,
  le_records-antisym c a b u v,
)
insert_record_comm c a b (x ∷ xs) u v = ground (
  arith,
  insert_record-cons a x xs,
  insert_record-cons b x xs,
  insert_record-cons a b (x ∷ xs),
  insert_record-cons b a (x ∷ xs),
  insert_record-cons a x (insert_record b xs),
  insert_record-cons b x (insert_record a xs),
  le_records-total a b,
  le_records-antisym c a b u v,
  le_records_trans a b x,
  le_records_trans b a x,
  insert_record_comm c a b xs u v,
)

All-perm : (P : RecordV1 → Type 0) {xs ys : List RecordV1} → Permᴰ xs ys → All P xs → All P ys
All-perm P Permᴰ.nil h = tt
All-perm P (Permᴰ.cons e d) (p, h) = (subst P e p, All-perm P d h)
All-perm P (Permᴰ.swap e f) (p, (q, h)) = (subst P f q, (subst P e p, h))
All-perm P (Permᴰ.trans d e) h = All-perm P e (All-perm P d h)

sort-permᴰ :
    (c : Number) {xs ys : List RecordV1}
    → Permᴰ xs ys
    → All (Uniform c) xs
    → sort_records_canonical xs ≡ sort_records_canonical ys
unfolding sort_records_canonical
sort-permᴰ c Permᴰ.nil h = refl
sort-permᴰ c (Permᴰ.cons e d) (p, h) = ap₂ insert_record e (sort-permᴰ c d h)
sort-permᴰ c (Permᴰ.swap {a} {b} {l} e f) (p, (q, h)) =
    insert_record_comm c a b (sort_records_canonical l) p q
    ∙ ap₂ insert_record f (ap (λ r. insert_record r (sort_records_canonical l)) e)
sort-permᴰ c (Permᴰ.trans d e) h = sort-permᴰ c d h ∙ sort-permᴰ c e (All-perm (Uniform c) d h)

RecordV1-set : IsSet RecordV1
RecordV1-set = hlevel

-- Records of one class, with integer types and TTLs, have one canonical order.
pub sort_records_canonical_unique :
    (c : Number) (xs ys : List RecordV1)
    → Perm xs ys
    → All (Uniform c) xs
    → sort_records_canonical xs ≡ sort_records_canonical ys
sort_records_canonical_unique c xs ys p h = ∥∥₁_elim p (hlevel) (λ d. sort-permᴰ c d h)

sub_self : (z : ℤ) → z -ℤ z ≡ pos 0
sub_self z = omega int_laws

compare_bytes_self : (xs : Bytes) → compare_bytes xs xs ≡ pos 0
unfolding compare_bytes
compare_bytes_self [] = refl
compare_bytes_self (x ∷ xs) = rw (==_refl x) (compare_bytes_self xs)

compare_records-tie :
    (a b : RecordV1)
    → a.rr_type ≡ b.rr_type
    → a.ttl ≡ b.ttl
    → a.rdata ≡ b.rdata
    → compare_records a b ≡ pos 0
unfolding compare_records unless_zero
compare_records-tie a b t l d = rw (
  t,
  l,
  d,
  sub_self (as_integer b.rr_type),
  sub_self (as_integer b.ttl),
  compare_bytes_self b.rdata,
)

head-eq : (a b : RecordV1) (xs ys : List RecordV1) → a ∷ xs ≡ b ∷ ys → a ≡ b
head-eq a b xs ys h = cc

-- Two records that differ in their class alone keep the order in which they are given, so the
-- route set that holds them has two canonical forms.
pub class_tie :
    (a b : RecordV1)
    → a.rr_type ≡ b.rr_type
    → a.ttl ≡ b.ttl
    → a.rdata ≡ b.rdata
    → a.rr_class ≢ b.rr_class
    → sort_records_canonical (a ∷ b ∷ []) ≢ sort_records_canonical (b ∷ a ∷ [])
unfolding sort_records_canonical insert_record
class_tie a b t l d differ same = differ (
    ap (λ (r : RecordV1). r.rr_class)
      (head-eq a b (b ∷ []) (a ∷ []) (
        rw (compare_records-tie a b t l d, compare_records-tie b a (sym t) (sym l) (sym d)) at
          same)))

insert_record-first :
    (r : RecordV1) (rs : List RecordV1)
    → All (λ x. le_records r x ≡ true) rs
    → insert_record r rs ≡ r ∷ rs
insert_record-first r [] h = insert_record-nil r
insert_record-first r (x ∷ xs) (p, h) = rw (insert_record-cons r x xs, p)

sort-IsSorted-id : (rs : List RecordV1) → IsSorted rs → sort_records_canonical rs ≡ rs
unfolding sort_records_canonical
sort-IsSorted-id [] h = refl
sort-IsSorted-id (r ∷ rs) (p, h) = rw (sort-IsSorted-id rs h) (insert_record-first r rs p)

-- Records in canonical order stay as they are.
pub sort_records_canonical_idempotent :
    (rs : List RecordV1)
    → sort_records_canonical (sort_records_canonical rs) ≡ sort_records_canonical rs
sort_records_canonical_idempotent rs =
    sort-IsSorted-id (sort_records_canonical rs) (sort_records_canonical-IsSorted rs)
