-- ===== src/Names/Normal.antt =====
-- Normalised names (core/src/normalize.ts).
use mathlib.Core.List.{reverse-cons, reverse-reverse}
use decentralized_dns.Prelude.{
  ℕ, ◌≡◌, refl, sym, ap, ◌∙◌, Bool, true, false, ◌&&◌, ◌||◌, Bool-cases, inl, inr, List, [], ◌∷◌,
  ◌++◌, map, reverse, any, all, ◌==◌, ==_iff, Text, is_space, trim_start, trim, lower,
  to_lower_case, ok, arith,
}
use decentralized_dns.Names.{
  dot, onto_first, split, join, ends_with_dot, is_empty, is_label_char, is_label,
  validate_normalized_name, normalize_name,
}

and_assoc : (x y z : Bool) → ((x && y) && z) ≡ (x && (y && z))
and_assoc true y z = refl
and_assoc false y z = refl

both_true : (x y : Bool) → (x && y) ≡ true → (x ≡ true) × (y ≡ true)
both_true true y h = (refl, h)
both_true false y h = cc

join-onto_first : (c : ℕ) (labels : List Text) → join (onto_first c labels) ≡ c ∷ join labels
unfolding join
join-onto_first c [] = refl
join-onto_first c (label ∷ []) = refl
join-onto_first c (label ∷ next ∷ labels) = refl

abbrev is_nil : List Text → Bool
is_nil [] = true
is_nil (l ∷ ls) = false

onto_first_not_empty : (c : ℕ) (labels : List Text) → is_nil (onto_first c labels) ≡ false
onto_first_not_empty c [] = refl
onto_first_not_empty c (l ∷ ls) = refl

split_not_empty : (s : Text) → is_nil (split s) ≡ false
unfolding split
split_not_empty [] = refl
split_not_empty (c ∷ s) = elim (Bool-cases (c == dot)) [
  | inl e ↦ rw e
  | inr e ↦ rw e (onto_first_not_empty c (split s))
]

join-dot : (labels : List Text) → is_nil labels ≡ false → join ([] ∷ labels) ≡ dot ∷ join labels
unfolding join
join-dot [] h = cc
join-dot (label ∷ labels) h = refl

join-split : (s : Text) → join (split s) ≡ s
unfolding split
join-split [] = unfold join in refl
join-split (c ∷ s) = elim (Bool-cases (c == dot)) [
  | inl e ↦
      rw (e, join-dot (split s) (split_not_empty s), join-split s)
        (ap (λ d. d ∷ s) (sym ((==_iff c dot).0 e)))
  | inr e ↦ rw (e, join-onto_first c (split s), join-split s)
]

-- The characters of a normalised name.
abbrev name_char : ℕ → Bool
name_char c = is_label_char c || c == dot

dotted : (x : Bool) → ((x || true) && true) ≡ true
dotted true = refl
dotted false = refl

first_chars :
    (c : ℕ) (labels : List Text)
    → all (all is_label_char) (onto_first c labels)
      ≡ (is_label_char c && all (all is_label_char) labels)
first_chars c [] = and_assoc (is_label_char c) true true
first_chars c (label ∷ labels) =
    and_assoc (is_label_char c) (all is_label_char label) (all (all is_label_char) labels)

chars_of_labels : (s : Text) → all (all is_label_char) (split s) ≡ true → all name_char s ≡ true
unfolding split
chars_of_labels [] h = refl
chars_of_labels (c ∷ s) h = elim (Bool-cases (c == dot)) [
  | inl e ↦ let later = rw e at h in rw (e, chars_of_labels s later) (dotted (is_label_char c))
  | inr e ↦
      let (here, later) =
        both_true (is_label_char c) (all (all is_label_char) (split s))
          (rw (e, first_chars c (split s)) at h) in
      rw (here, chars_of_labels s later)
]

labels_chars :
    (labels : List Text) → all is_label labels ≡ true → all (all is_label_char) labels ≡ true
unfolding is_label
labels_chars [] h = refl
labels_chars (label ∷ labels) h = ground (arith, labels_chars labels)

lower-name_char : (c : ℕ) → name_char c ≡ true → lower c ≡ c
unfolding lower is_label_char
lower-name_char c h = ground arith

space-name_char : (c : ℕ) → name_char c ≡ true → is_space c ≡ false
unfolding is_space is_label_char
space-name_char c h = ground arith

to_lower_case_same : (s : Text) → all name_char s ≡ true → to_lower_case s ≡ s
unfolding to_lower_case
to_lower_case_same [] h = refl
to_lower_case_same (c ∷ s) h =
    let (here, later) = both_true _ _ h in
    rw (lower-name_char c here) (ap (λ l. c ∷ l) (to_lower_case_same s later))

trim_start_same : (s : Text) → all name_char s ≡ true → trim_start s ≡ s
unfolding trim_start
trim_start_same [] h = refl
trim_start_same (c ∷ s) h = rw (space-name_char c (both_true _ _ h).0)

all-append : (s t : Text) → all name_char (s ++ t) ≡ (all name_char s && all name_char t)
all-append [] t = refl
all-append (c ∷ s) t =
    ap (λ b. name_char c && b) (all-append s t)
    ∙ sym (and_assoc (name_char c) (all name_char s) (all name_char t))

all-reverse : (s : Text) → all name_char s ≡ true → all name_char (reverse s) ≡ true
all-reverse [] h = refl
all-reverse (c ∷ s) h =
    let (here, later) = both_true (name_char c) (all name_char s) h in
    rw (reverse-cons c s, all-append (reverse s) (c ∷ []), all-reverse s later, here)

trim_same : (s : Text) → all name_char s ≡ true → trim s ≡ s
unfolding trim
trim_same s h =
    rw (trim_start_same s h, trim_start_same (reverse s) (all-reverse s h)) (reverse-reverse s)

map_same :
    (to_ascii : Text → Text)
    → ((label : Text) → is_label label ≡ true → to_ascii label ≡ label)
    → (labels : List Text) → all is_label labels ≡ true
    → map to_ascii labels ≡ labels
map_same to_ascii same [] h = refl
map_same to_ascii same (label ∷ labels) h =
    let (here, later) = both_true _ _ h in rw (same label here, map_same to_ascii same labels later)

-- What the validation of a name says.
record Normal (n : Text) : Type 0 where
  not_empty : is_empty n ≡ false
  no_dot : ends_with_dot n ≡ false
  no_gap : any is_empty (split n) ≡ false
  labels_ok : all is_label (split n) ≡ true

validate-Normal : (n : Text) → validate_normalized_name n ≡ ok tt → Normal n
unfolding validate_normalized_name
validate-Normal n e = ground arith

normalize_name-eq-ok :
    (to_ascii : Text → Text) (input n : Text)
    → normalize_name to_ascii input ≡ ok n
    → validate_normalized_name n ≡ ok tt
unfolding normalize_name
normalize_name-eq-ok to_ascii input n e = ground arith

-- What `normalizeName` returns is a valid normalised name, and normalising it again changes nothing, if
-- `punycode.toASCII` leaves the labels of letters a to z, digits and dashes alone.
pub normalize_name_idempotent :
    (to_ascii : Text → Text) (input n : Text)
    → ((label : Text) → is_label label ≡ true → to_ascii label ≡ label)
    → normalize_name to_ascii input ≡ ok n
    → (validate_normalized_name n ≡ ok tt) × (normalize_name to_ascii n ≡ ok n)
unfolding normalize_name
normalize_name_idempotent to_ascii input n same e =
    let valid = normalize_name-eq-ok to_ascii input n e in
    let normal = validate-Normal n valid in
    let chars = chars_of_labels n (labels_chars (split n) normal.labels_ok) in
    (
      valid,
      rw (
        trim_same n chars,
        normal.no_dot,
        normal.not_empty,
        normal.no_gap,
        map_same to_ascii same (split n) normal.labels_ok,
        join-split n,
        to_lower_case_same n chars,
        valid,
      ),
    )
