-- ===== src/AttackMode/Quorum/Groups.antt =====
-- The groups of answers that `fetchAccountMultiRpc` keeps (packages/attack-mode/src/index.ts).
use decentralized_dns.Prelude.{
  ℕ, ◌≡◌, ◌≤◌, ◌<◌, ◌⊎◌, inl, inr, refl, sym, ◌∙◌, subst, if_both, ltb→lt, false, Bool-cases, some,
  none, List, [], ◌∷◌, ◌++◌, ◌⊎◌, append_assoc, append-nil, length, length-append, ltb, Text,
  text_eq, text_eq_iff, text_eq_refl, if◌then◌else◌, arith,
}
use decentralized_dns.Prelude.All.{All}
use decentralized_dns.Prelude.Doubles.{Double}
use decentralized_dns.AttackMode.Quorum.{
  RpcReply, failed, answered, Group, join_group, pick_best, group_replies,
}

-- The servers in a group with this hash.
unfoldable pub urls_of : Text → List Group → List Text
urls_of h [] = []
urls_of h (g ∷ groups) = if text_eq g.hash h then g.urls else urls_of h groups

-- One group for each hash, at least one server in each.
unfoldable pub Distinct : List Group → Type 0
Distinct [] = Unit {0}
Distinct (g ∷ groups) = All (λ k. text_eq k.hash g.hash ≡ false) groups × Distinct groups

pub text_eq_sym : (xs ys : Text) → text_eq xs ys ≡ text_eq ys xs
unfolding text_eq
text_eq_sym [] [] = refl
text_eq_sym [] (y ∷ ys) = refl
text_eq_sym (x ∷ xs) [] = refl
text_eq_sym (x ∷ xs) (y ∷ ys) = ground (arith, text_eq_sym xs ys)

-- The answers of the servers that gave data with this hash, in the order of arrival.
unfoldable pub votes : (Text → Text) → Text → List RpcReply → List Text
votes hash_hex h [] = []
votes hash_hex h (failed url err ∷ replies) = votes hash_hex h replies
votes hash_hex h (answered url slot data_base64 ∷ replies) =
    if text_eq (hash_hex data_base64) h
    then url ∷ votes hash_hex h replies
    else votes hash_hex h replies

module _ (h url : Text) (slot : Double) (d : Text) where
  urls_of-join_group_same :
      (groups : List Group)
      → urls_of h (join_group h url slot d groups) ≡ urls_of h groups ++ (url ∷ [])
  unfolding urls_of join_group
  urls_of-join_group_same [] = rw (text_eq_refl h)
  urls_of-join_group_same (g ∷ groups) = elim (Bool-cases (text_eq g.hash h)) [
    | inl e ↦ rw (e, e)
    | inr e ↦ rw (e, e, urls_of-join_group_same groups)
  ]

  urls_of-join_group_other :
      (k : Text) (groups : List Group)
      → text_eq h k ≡ false
      → urls_of k (join_group h url slot d groups) ≡ urls_of k groups
  unfolding urls_of join_group
  urls_of-join_group_other k [] ne = rw ne
  urls_of-join_group_other k (g ∷ groups) ne = elim (Bool-cases (text_eq g.hash h)) [
    | inl e ↦
        let apart : text_eq g.hash k ≡ false = rw ((text_eq_iff g.hash h).0 e) ne in rw (e, apart)
    | inr e ↦ rw (e, urls_of-join_group_other k groups ne)
  ]

  keys-join_group :
      (P : Text → Type 0) (groups : List Group)
      → P h
      → All (λ g. P g.hash) groups
      → All (λ g. P g.hash) (join_group h url slot d groups)
  unfolding join_group
  keys-join_group P [] p a = (p, tt)
  keys-join_group P (g ∷ groups) p (q, a) = elim (Bool-cases (text_eq g.hash h)) [
    | inl e ↦ rw e (q, a)
    | inr e ↦ rw e (q, keys-join_group P groups p a)
  ]

  join_group-Distinct :
      (groups : List Group) → Distinct groups → Distinct (join_group h url slot d groups)
  unfolding join_group Distinct
  join_group-Distinct [] u = (tt, tt)
  join_group-Distinct (g ∷ groups) (a, u) = elim (Bool-cases (text_eq g.hash h)) [
    | inl e ↦ rw e (a, u)
    | inr e ↦ rw e (
      keys-join_group (λ k. text_eq k g.hash ≡ false) groups (text_eq_sym h g.hash ∙ e) a,
      join_group-Distinct groups u,
    )
  ]

urls_of_own :
    (g : Group) (groups some_groups : List Group)
    → All (λ k. text_eq k.hash g.hash ≡ false) some_groups
    → All (λ k. urls_of k.hash groups ≡ k.urls) some_groups
    → All (λ k. urls_of k.hash (g ∷ groups) ≡ k.urls) some_groups
unfolding urls_of
urls_of_own g groups [] a b = tt
urls_of_own g groups (k ∷ ks) (p, a) (q, b) =
    (rw (text_eq_sym g.hash k.hash ∙ p) q, urls_of_own g groups ks a b)

pub own_urls :
    (groups : List Group) → Distinct groups → All (λ k. urls_of k.hash groups ≡ k.urls) groups
unfolding Distinct
own_urls [] u = tt
own_urls (g ∷ groups) (a, u) =
    (unfold urls_of in rw (text_eq_refl g.hash), urls_of_own g groups groups a (own_urls groups u))

pub urls_of-bound :
    (h : Text) (n : ℕ) (groups : List Group)
    → All (λ g. length g.urls ≤ n) groups
    → length (urls_of h groups) ≤ n
unfolding urls_of
urls_of-bound h n [] a = omega arith
urls_of-bound h n (g ∷ groups) (p, a) =
    if_both (λ (us : List Text). length us ≤ n) (text_eq g.hash h) p (urls_of-bound h n groups a)

pick_best_lem :
    (P : Group → Type 0) (b : Group) (groups : List Group)
    → P b
    → All P groups
    → (best : Group) × (pick_best (some b) groups ≡ some best)
      × P best
      × (length b.urls ≤ length best.urls)
      × All (λ g. length g.urls ≤ length best.urls) groups
unfolding pick_best
pick_best_lem P b [] p a = (b, refl, p, omega arith, tt)
pick_best_lem P b (g ∷ groups) p (q, a) = elim (Bool-cases (ltb (length b.urls) (length g.urls))) [
  | inl e ↦
      let (best, same, r, le, les) = pick_best_lem P g groups q a in
      (best, rw e same, r, omega (arith, ltb→lt _ _ e), (le, les))
  | inr e ↦
      let (best, same, r, le, les) = pick_best_lem P b groups p a in
      (best, rw e same, r, le, (ground (arith, e, le), les))
]

pub pick_best-cases :
    (P : Group → Type 0) (groups : List Group)
    → All P groups
    → ((groups ≡ []) × (pick_best none groups ≡ none))
      ⊎ ((best : Group) × (pick_best none groups ≡ some best)
          × P best
          × All (λ g. length g.urls ≤ length best.urls) groups)
unfolding pick_best
pick_best-cases P [] a = inl (refl, refl)
pick_best-cases P (g ∷ groups) (p, a) =
    let (best, same, r, le, les) = pick_best_lem P g groups p a in inr (best, same, r, (le, les))

module _ (hash_hex : Text → Text) where
  -- The data of a group has the group's hash, and some server gave it.
  abbrev pub Sound : Group → Type 0
  Sound g = (hash_hex g.data_base64 ≡ g.hash) × (0 < length g.urls)

  join_group-Sound :
      (url : Text) (slot : Double) (d : Text) (groups : List Group)
      → All Sound groups
      → All Sound (join_group (hash_hex d) url slot d groups)
  unfolding join_group
  join_group-Sound url slot d [] a = ((refl, omega arith), tt)
  join_group-Sound url slot d (g ∷ groups) ((same, p), a) =
      elim (Bool-cases (text_eq g.hash (hash_hex d))) [
        | inl e ↦ rw e ((same, omega (arith, length-append g.urls (url ∷ []))), a)
        | inr e ↦ rw e ((same, p), join_group-Sound url slot d groups a)
      ]

  pub group_replies_lem :
      (replies : List RpcReply) (groups : List Group)
      → Distinct groups
      → All Sound groups
      → Distinct (group_replies hash_hex replies groups)
        × All Sound (group_replies hash_hex replies groups)
        × ((h : Text)
            → urls_of h (group_replies hash_hex replies groups)
              ≡ urls_of h groups ++ votes hash_hex h replies)
  unfolding group_replies votes
  group_replies_lem [] groups u a = (u, a, λ h. sym (append-nil _))
  group_replies_lem (failed url err ∷ replies) groups u a = group_replies_lem replies groups u a
  group_replies_lem (answered url slot d ∷ replies) groups u a =
      let next = join_group (hash_hex d) url slot d groups in
      let (u2, a2, same) =
        group_replies_lem replies next (join_group-Distinct (hash_hex d) url slot d groups u)
          (join_group-Sound url slot d groups a) in
      (
        u2,
        a2,
        λ h. elim (Bool-cases (text_eq (hash_hex d) h)) [
          | inl e ↦
              let here = (text_eq_iff (hash_hex d) h).0 e in
              let joined : urls_of h next ≡ urls_of h groups ++ (url ∷ []) =
                subst (λ k. urls_of k next ≡ urls_of k groups ++ (url ∷ [])) here
                  (urls_of-join_group_same (hash_hex d) url slot d groups) in
              rw (e, same h, joined)
                (append_assoc (urls_of h groups) (url ∷ []) (votes hash_hex h replies))
          | inr e ↦ rw (e, same h, urls_of-join_group_other (hash_hex d) url slot d h groups e)
        ],
      )
