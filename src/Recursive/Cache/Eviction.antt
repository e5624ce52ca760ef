-- ===== src/Recursive/Cache/Eviction.antt =====
-- `evictIfNeeded` of gateway/src/adapters/recursive.ts: the size that it leaves, and what it removes.
use decentralized_dns.Prelude.{
  ℕ, suc, ◌-◌, ◌*◌, ◌≤◌, ◌<◌, ◌≡◌, refl, subst, append_assoc, ap, ◌∙◌, Bool, true, false, ◌&&◌, not,
  [], ◌∷◌, ◌++◌, length, any, take, drop, arith, Bool-cases, inl, inr, ◌⊎◌, ltb, leb, int_laws,
  if◌then◌else◌, Text, text_eq, text_eq_refl, length-append, length-drop, length-take, take_all,
  take-append-drop,
}
use mathlib.Core.List.{Mem}
use decentralized_dns.Prelude.All.{All, All-map, All-zip, All-take, All-append}
use decentralized_dns.Prelude.Doubles.{Double, less, less_or_equal, minus, maximum, is_finite}
use decentralized_dns.Prelude.Sorting.{
  filter, sort_by, filter-append, length-filter-sort_by, length-sort_by, All_of_sort_by, All-filter,
  All-sort_by, All-Mem, filter-All,
}
use decentralized_dns.Prelude.Ordered.{WeakOrderOn, Ordered, Behind, Ordered-sort_by, Ordered-drop}
use decentralized_dns.Recursive.{units}
use decentralized_dns.Recursive.Cache.{
  CacheEntry, Entries, RecursiveAdapterConfig, remove, number_default, older, evict_from,
  evict_if_needed,
}

-- One of the given entries has the key.
abbrev pub hit : Entries → Text × CacheEntry → Bool
hit gone e = any (λ g. text_eq e.0 g.0) gone

pub remove_all : Entries → Entries → Entries
remove_all [] entries = entries
remove_all ((k, _) ∷ gone) entries = remove_all gone (remove k entries)

below_limit : (i n m : ℕ) → m ≤ n → less (units i) (minus (units n) (units m)) ≡ ltb i (n - m)
below_limit i n m h = grind int_laws

abbrev empty_entries : Entries
empty_entries = []

evict_from-remove_all :
    (n m i : ℕ) (items entries : Entries)
    → m ≤ n
    → evict_from (minus (units n) (units m)) i items entries
      ≡ remove_all (take (n - m - i) items) entries
unfolding evict_from remove_all
evict_from-remove_all n m i [] entries h = rw (take_all (n - m - i) (empty_entries) (omega arith))
evict_from-remove_all n m i ((k, e) ∷ items) entries h = elim (Bool-cases (ltb i (n - m))) [
  | inl more ↦
      let step : n - m - i ≡ suc (n - m - suc i) = ground arith in
      rw (below_limit i n m h, more, step)
        (evict_from-remove_all n m (suc i) items (remove k entries) h)
  | inr done ↦ let step : n - m - i ≡ 0 = ground arith in rw (below_limit i n m h, done, step)
]

filter-filter :
    (p q r : Text × CacheEntry → Bool) (entries : Entries)
    → ((e : Text × CacheEntry) → r e ≡ (q e && p e))
    → filter p (filter q entries) ≡ filter r entries
unfolding filter
filter-filter p q r [] h = refl
filter-filter p q r (e ∷ entries) h = ground (arith, h e, filter-filter p q r entries h)

filter_nothing : (entries : Entries) → entries ≡ filter (λ _. true) entries
unfolding filter
filter_nothing [] = refl
filter_nothing (e ∷ entries) = ap (λ es. e ∷ es) (filter_nothing entries)

pub remove_all-filter :
    (gone entries : Entries) → remove_all gone entries ≡ filter (λ e. not (hit gone e)) entries
unfolding remove_all remove
remove_all-filter [] entries = filter_nothing entries
remove_all-filter ((k, g) ∷ gone) entries =
    remove_all-filter gone (remove k entries)
    ∙ filter-filter (λ e. not (hit gone e)) (λ e. not (text_eq e.0 k))
        (λ e. not (hit ((k, g) ∷ gone) e)) entries (λ e. ground arith)

any_here :
    (gone : Entries) (e : Text × CacheEntry) (more : Entries) → hit (gone ++ (e ∷ more)) e ≡ true
any_here [] e more = rw (text_eq_refl e.0)
any_here (g ∷ gone) e more = ground (arith, any_here gone e more)

-- The entries that are one of the given ones are hit.
hit_self : (gone more : Entries) → All (λ e. hit (gone ++ more) e ≡ true) more
hit_self gone [] = tt
hit_self gone (e ∷ more) = (
  any_here gone e more,
  subst (λ es. All (λ x. hit es x ≡ true) more) (append_assoc gone (e ∷ []) more)
      (hit_self (gone ++ (e ∷ [])) more),
)

filter_of_all :
    (p : Text × CacheEntry → Bool) (es : Entries)
    → All (λ e. p e ≡ true) es
    → length (filter (λ e. not (p e)) es) ≡ 0
unfolding filter
filter_of_all p [] h = refl
filter_of_all p (e ∷ es) (q, h) = rw q (filter_of_all p es h)

length-filter-le : (p : Text × CacheEntry → Bool) (es : Entries) → length (filter p es) ≤ length es
unfolding filter
length-filter-le p [] = omega arith
length-filter-le p (e ∷ es) = ground (arith, length-filter-le p es)

-- Removing the first d entries of the sorted list leaves at most the others.
pub length-remove_all :
    (d : ℕ) (entries : Entries)
    → length (remove_all (take d (sort_by older entries)) entries) ≤ length entries - d
length-remove_all d entries =
    let sorted = sort_by older entries in
    let gone = take d sorted in
    let kept = λ (e : Text × CacheEntry). not (hit gone e) in
    let counts =
      rw
        (
          filter-append kept gone (drop d sorted),
          length-append (filter kept gone) (filter kept (drop d sorted)),
        )
        at (ap (λ es. length (filter kept es)) (take-append-drop d sorted)) in
    rw (remove_all-filter gone entries) (
      omega (
        arith,
        length-filter-sort_by older kept entries,
        counts,
        filter_of_all (hit gone) gone (hit_self [] gone),
        length-filter-le kept (drop d sorted),
        length-drop d sorted,
        length-sort_by older entries,
      ))

less_asymmetric : (a b : Double) → less a b ≡ true → less b a ≡ false
less_asymmetric a b h = ground arith

less_transitive :
    (a b c : Double)
    → is_finite a ≡ true
    → is_finite b ≡ true
    → is_finite c ≡ true
    → less a b ≡ false
    → less b c ≡ false
    → less a c ≡ false
less_transitive a b c x y z h k = ground arith

abbrev pub Dated : Text × CacheEntry → Type 0
Dated e = is_finite e.1.fetched_at ≡ true

older-WeakOrderOn : WeakOrderOn Dated older
older-WeakOrderOn = record {
  asymmetric = λ a b h. less_asymmetric a.1.fetched_at b.1.fetched_at h;
  transitive =
      λ a b c x y z h k. less_transitive a.1.fetched_at b.1.fetched_at c.1.fetched_at x y z h k;
}

-- An entry that is hit, or none of the given entries was fetched after it.
abbrev HitOrLater : Entries → Text × CacheEntry → Type 0
HitOrLater gone f = (hit gone f ≡ true) ⊎ All (λ g. older f g ≡ false) gone

hit_or_later :
    (d : ℕ) (sorted : Entries)
    → Ordered Dated older sorted
    → All (HitOrLater (take d sorted)) sorted
hit_or_later d sorted o =
    let gone = take d sorted in
    subst (All (HitOrLater gone)) (take-append-drop d sorted) (
      All-append (HitOrLater gone) gone (drop d sorted)
        (All-map (λ e. hit gone e ≡ true) (HitOrLater gone) gone (λ e h. inl h) (hit_self [] gone))
        (All-map (Behind Dated older gone) (HitOrLater gone) (drop d sorted) (λ e h. inr h)
          (Ordered-drop Dated older d sorted o)))

later_of_kept :
    (gone : Entries) (f : Text × CacheEntry)
    → HitOrLater gone f
    → not (hit gone f) ≡ true
    → All (λ g. older f g ≡ false) gone
later_of_kept gone f (inl h) k = cc
later_of_kept gone f (inr h) k = h

-- What an eviction did: it removed the keys of so many entries of the cache, and none of these was fetched
-- after an entry that stays.
pub record Evicted (count : ℕ) (entries kept : Entries) : Type 0 where
  pub gone : Entries
  pub removes : length gone ≡ count
  pub members : All (λ g. Mem g entries) gone
  pub kept_is : kept ≡ filter (λ e. not (hit gone e)) entries
  pub later : All (λ f. All (λ g. older f g ≡ false) gone) kept

removal-Evicted :
    (d : ℕ) (entries : Entries)
    → d ≤ length entries
    → All Dated entries
    → Evicted d entries (remove_all (take d (sort_by older entries)) entries)
removal-Evicted d entries h dated =
    let sorted = sort_by older entries in
    let gone = take d sorted in
    let stays = λ (e : Text × CacheEntry). not (hit gone e) in
    let all_later =
      All_of_sort_by older (HitOrLater gone) entries
        (hit_or_later d sorted (Ordered-sort_by Dated older older-WeakOrderOn entries dated)) in
    record {
      gone = gone;
      removes = omega (arith, length-take d sorted, length-sort_by older entries);
      members =
          All-take (λ g. Mem g entries) d sorted
            (All-sort_by (λ g. Mem g entries) older entries (All-Mem entries));
      kept_is = remove_all-filter gone entries;
      later = rw (remove_all-filter gone entries) (
          All-zip (HitOrLater gone) (λ f. stays f ≡ true) (λ f. All (λ g. older f g ≡ false) gone)
            (filter stays entries) (λ f x y. later_of_kept gone f x y)
            (All-filter (HitOrLater gone) stays entries all_later) (filter-All stays entries));
    }

limit_units :
    (cfg : RecursiveAdapterConfig) (m : ℕ)
    → cfg.cache_max_entries ≡ units m
    → 1 ≤ m
    → maximum (units 1) (number_default cfg.cache_max_entries (units 50000)) ≡ units m
limit_units cfg m e h =
    let k : m * 1000 ≡ suc (m * 1000 - 1) = omega arith in rw (e, k) (ground arith)

within_limit : (n m : ℕ) → less_or_equal (units n) (units m) ≡ leb n m
within_limit n m = ground arith

pub evict_if_needed_cases :
    (cfg : RecursiveAdapterConfig) (m : ℕ) (entries : Entries)
    → cfg.cache_max_entries ≡ units m
    → 1 ≤ m
    → evict_if_needed cfg entries ≡ (
        if leb (length entries) m
        then entries
        else remove_all (take (length entries - m) (sort_by older entries)) entries)
unfolding evict_if_needed
evict_if_needed_cases cfg m entries e h =
    let all_of_them : length entries - m - 0 ≡ length entries - m = omega arith in
    elim (Bool-cases (leb (length entries) m)) [
      | inl fits ↦ rw (limit_units cfg m e h, within_limit (length entries) m, fits)
      | inr full ↦
          rw (limit_units cfg m e h, within_limit (length entries) m, full)
            (rw all_of_them at (
              evict_from-remove_all (length entries) m 0 (sort_by older entries) entries
                (ground arith)))
    ]

all_tt : (entries : Entries) → All (λ _. Unit {0}) entries
all_tt [] = tt
all_tt (e ∷ entries) = (tt, all_tt entries)

pub leb-false : (n m : ℕ) → leb n m ≡ false → m < n
leb-false n m h = ground arith

-- For a limit that is a whole number above 0: a cache within the limit stays as it is. Of a larger cache
-- whose entries all carry finite times of fetching, at most as many entries stay as the limit says;
-- the keys of exactly as many entries are removed as there are too many, and no removed entry was
-- fetched after one that stays.
pub evict_if_needed_lem :
    (cfg : RecursiveAdapterConfig) (m : ℕ) (entries : Entries)
    → cfg.cache_max_entries ≡ units m
    → 1 ≤ m
    → All Dated entries
    → (length (evict_if_needed cfg entries) ≤ m)
      × Evicted (length entries - m) entries (evict_if_needed cfg entries)
evict_if_needed_lem cfg m entries e h dated = elim (Bool-cases (leb (length entries) m)) [
  | inl fits ↦
      let none_gone : length entries - m ≡ 0 = ground arith in
      rw (evict_if_needed_cases cfg m entries e h, fits, none_gone)
        (
          ground arith,
          record {
            gone = [];
            removes = refl;
            members = tt;
            kept_is = filter_nothing entries;
            later = all_tt entries;
          },
        )
  | inr full ↦
      rw (evict_if_needed_cases cfg m entries e h, full)
        (
          omega (
            arith,
            length-remove_all (length entries - m) entries,
            leb-false (length entries) m full,
          ),
          removal-Evicted (length entries - m) entries (omega arith) dated,
        )
]
