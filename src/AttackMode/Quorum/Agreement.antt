-- ===== src/AttackMode/Quorum/Agreement.antt =====
-- What the answer of `fetchAccountMultiRpc` says about the servers (packages/attack-mode/src/index.ts).
use decentralized_dns.Prelude.{
  ℕ, ◌≡◌, ◌≢◌, ◌≤◌, ◌<◌, ◌↔◌, ◌⊎◌, inl, inr, refl, sym, ap, ◌∙◌, subst, ltb→lt, lt→ltb, Bool, true,
  Bool-cases, Option, some, none, List, [], ◌∷◌, length, ltb, Text, text_eq, text_eq_iff,
  text_eq_refl, arith,
}
use decentralized_dns.Prelude.All.{All}
use decentralized_dns.AttackMode.Quorum.{
  RpcReply, Group, Evidence, agreed, refused, pick_best, group_replies, settle,
  fetch_account_multi_rpc,
}
use decentralized_dns.AttackMode.Quorum.Groups.{
  text_eq_sym, urls_of, Distinct, votes, own_urls, urls_of-bound, pick_best-cases, Sound,
  group_replies_lem,
}

settle-agreed :
    (hash_hex : Text → Text) (replies : List RpcReply) (m : ℕ) (gs : List Group) (b : Option Group)
    (g : Group)
    → settle hash_hex replies m gs b ≡ agreed g
    → (b ≡ some g) × (m ≤ length g.urls)
unfolding settle
settle-agreed hash_hex replies m gs none g e = cc
settle-agreed hash_hex replies m gs (some best) g e = ground arith

settle-refused :
    (hash_hex : Text → Text) (replies : List RpcReply) (m : ℕ) (gs : List Group) (b : Option Group)
    (ev : List Evidence) (d : Bool)
    → settle hash_hex replies m gs b ≡ refused ev d
    → (d ≡ ltb 1 (length gs))
      × ((b ≡ none) ⊎ ((best : Group) × (b ≡ some best) × (length best.urls < m)))
unfolding settle
settle-refused hash_hex replies m gs none ev d e = (cc, inl refl)
settle-refused hash_hex replies m gs (some best) ev d e =
    elim (Bool-cases (ltb (length best.urls) m)) [
      | inl small ↦ let same = rw small at e in (cc, inr (best, refl, ltb→lt _ _ small))
      | inr large ↦ let same = rw large at e in cc
    ]

-- Two hashes that differ, each with a server.
abbrev Apart : (Text → List Text) → Type 0
Apart at_hash = (h : Text) × (k : Text) × (h ≢ k) × (at_hash h ≢ []) × (at_hash k ≢ [])

nonempty : (us : List Text) → 0 < length us → us ≢ []
nonempty [] h e = omega arith
nonempty (u ∷ us) h e = cc

Apart-iff :
    (hash_hex : Text → Text) (gs : List Group)
    → Distinct gs
    → All (Sound hash_hex) gs
    → (ltb 1 (length gs) ≡ true) ↔ Apart (λ h. urls_of h gs)
unfolding urls_of Distinct
Apart-iff hash_hex [] u a = (λ h. cc, λ (h, k, ne, p, q). absurd (p refl))
Apart-iff hash_hex (g ∷ []) u a = (
  λ h. cc,
  λ (h, k, ne, p, q). elim (Bool-cases (text_eq g.hash h)) [
    | inl e ↦ elim (Bool-cases (text_eq g.hash k)) [
      | inl f ↦ absurd (ne (sym ((text_eq_iff g.hash h).0 e) ∙ (text_eq_iff g.hash k).0 f))
      | inr f ↦ absurd ((rw f at q) refl)
    ]
    | inr e ↦ absurd ((rw e at p) refl)
  ],
)
Apart-iff hash_hex (g ∷ k ∷ gs) ((ne, u1), u2) ((same, p), ((same2, q), a)) = (
  (λ h. (
    g.hash,
    k.hash,
    (λ e. let eq : text_eq k.hash g.hash ≡ true = (text_eq_iff k.hash g.hash).1 (sym e) in cc),
    rw (text_eq_refl g.hash) (nonempty g.urls p),
    rw (text_eq_sym g.hash k.hash, ne, text_eq_refl k.hash) (nonempty k.urls q),
  )),
  (λ h. lt→ltb _ _ (omega arith)),
)

module _ (hash_hex : Text → Text) (replies : List RpcReply) where
  -- The groups hold the votes.
  abbrev groups : List Group
  groups = group_replies hash_hex replies []

  groups-Distinct : Distinct groups
  groups-Distinct = (group_replies_lem hash_hex replies [] (unfold Distinct in tt) tt).0

  groups-Sound : All (Sound hash_hex) groups
  groups-Sound = (group_replies_lem hash_hex replies [] (unfold Distinct in tt) tt).1

  votes_grouped : (h : Text) → urls_of h groups ≡ votes hash_hex h replies
  unfolding urls_of
  votes_grouped = (group_replies_lem hash_hex replies [] (unfold Distinct in tt) tt).2

  -- What the largest group satisfies.
  record Winner (best : Group) : Type 0 where
    urls_are : best.urls ≡ votes hash_hex best.hash replies
    hash_is : hash_hex best.data_base64 ≡ best.hash
    largest : (h : Text) → length (votes hash_hex h replies) ≤ length best.urls

  votes-bound :
      (n : ℕ)
      → All (λ (g : Group). length g.urls ≤ n) groups
      → (h : Text) → length (votes hash_hex h replies) ≤ n
  votes-bound n a h =
      subst (λ (us : List Text). length us ≤ n) (votes_grouped h) (urls_of-bound h n groups a)

  both :
      (gs : List Group)
      → All (Sound hash_hex) gs
      → All (λ k. urls_of k.hash groups ≡ k.urls) gs
      → All (λ k. Sound hash_hex k × (urls_of k.hash groups ≡ k.urls)) gs
  both [] a b = tt
  both (g ∷ gs) (p, a) (q, b) = ((p, q), both gs a b)

  winner :
      ((groups ≡ []) × (pick_best none groups ≡ none))
      ⊎ ((best : Group) × (pick_best none groups ≡ some best) × Winner best)
  winner =
      elim (pick_best-cases (λ k. Sound hash_hex k × (urls_of k.hash groups ≡ k.urls)) groups
        (both groups groups-Sound (own_urls groups groups-Distinct))) [
          | inl h ↦ inl h
          | inr (best, same, ((hashed, some_url), own), le) ↦ inr (
            best,
            same,
            record {
              urls_are = sym own ∙ votes_grouped best.hash;
              hash_is = hashed;
              largest = votes-bound (length best.urls) le;
            },
          )
        ]

  no_votes : groups ≡ [] → (h : Text) → votes hash_hex h replies ≡ []
  unfolding urls_of
  no_votes e h = sym (votes_grouped h) ∙ ap (urls_of h) e

  -- Data that is agreed on was given, under one hash, by the servers that are named, which are all
  -- that gave it and at least `minAgree`, and no other hash was given by more servers.
  pub fetch_account_multi_rpc-agreed :
      (min_agree : ℕ) (g : Group)
      → fetch_account_multi_rpc hash_hex replies min_agree ≡ agreed g
      → (g.urls ≡ votes hash_hex g.hash replies)
        × (hash_hex g.data_base64 ≡ g.hash)
        × (min_agree ≤ length g.urls)
        × ((h : Text) → length (votes hash_hex h replies) ≤ length g.urls)
  unfolding fetch_account_multi_rpc
  fetch_account_multi_rpc-agreed min_agree g e =
      let (chosen, enough) =
        settle-agreed hash_hex replies min_agree groups (pick_best none groups) g e in
      elim winner [
        | inl (empty, same) ↦ cc
        | inr (best, same, w) ↦
            let here : best ≡ g = cc in
            let v : Winner g = subst Winner here w in (v.urls_are, v.hash_is, enough, v.largest)
      ]

  -- A refusal means that no hash was given by `minAgree` servers (or that none gave any data), and
  -- it reports a disagreement exactly when two servers gave data with different hashes.
  pub fetch_account_multi_rpc-refused :
      (min_agree : ℕ) (evidence : List Evidence) (disagreement : Bool)
      → fetch_account_multi_rpc hash_hex replies min_agree ≡ refused evidence disagreement
      → ((h : Text)
          → (votes hash_hex h replies ≡ []) ⊎ (length (votes hash_hex h replies) < min_agree))
        × ((disagreement ≡ true) ↔ (
            (h : Text) × (k : Text) × (h ≢ k)
            × (votes hash_hex h replies ≢ [])
            × (votes hash_hex k replies ≢ [])))
  unfolding fetch_account_multi_rpc
  fetch_account_multi_rpc-refused min_agree evidence disagreement e =
      let (reported, few) =
        settle-refused hash_hex replies min_agree groups (pick_best none groups) evidence
          disagreement e in
      let apart = Apart-iff hash_hex groups groups-Distinct groups-Sound in
      (
        (λ h. elim winner [
          | inl (empty, same) ↦ inl (no_votes empty h)
          | inr (best, same, w) ↦ elim few [
            | inl none_best ↦ cc
            | inr (other, is_best, small) ↦
                let alike : length other.urls ≡ length best.urls = cc in
                inr (omega (arith, w.largest h))
          ]
        ]),
        (
          (λ d.
              let (h, k, ne, p, q) = apart.0 (sym reported ∙ d) in
              (h, k, ne, rw (votes_grouped h) at p, rw (votes_grouped k) at q)),
          (λ (h, k, ne, p, q).
              reported ∙ apart.1 (h, k, ne, rw (votes_grouped h) p, rw (votes_grouped k) q)),
        ),
      )
