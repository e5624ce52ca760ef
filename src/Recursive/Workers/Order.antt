-- ===== src/Recursive/Workers/Order.antt =====
-- `queryUpstreams` of gateway/src/adapters/recursive.ts: the order of the workers' steps does not show in the result.
use decentralized_dns.Prelude.{
  ℕ, zero, suc, ◌+◌, ◌-◌, ◌*◌, ◌≤◌, ◌<◌, ◌≡◌, refl, ap, ◌∙◌, Bool, true, false, List, [], ◌∷◌, ◌++◌,
  length, length-append, length-replicate, get_elem?, any, Option, some, none, arith, Bool-cases,
  ◌==◌, ltb, ltb→lt, ◌⊎◌, inl, inr, map,
}
use decentralized_dns.Prelude.All.{All}
use decentralized_dns.Recursive.{UpstreamResult}
use decentralized_dns.Recursive.Workers.{
  set, Pool, concurrency, begin, Step, takes, leaves, finishes, Run, starts, then_step, AllLeft,
}

some_injective {ℓ} : {A : Type ℓ} {a b : A} → some a ≡ some b → a ≡ b
some_injective e = cc

module _ {ℓ} {A : Type ℓ} where
  length-set : (xs : List A) (i : ℕ) (v : A) → length (set xs i v) ≡ length xs
  unfolding set
  length-set [] i v = refl
  length-set (x ∷ xs) zero v = refl
  length-set (x ∷ xs) (suc i) v = ap suc (length-set xs i v)

  get_elem?-set_self :
      (xs : List A) (i : ℕ) (v : A) → i < length xs → get_elem? (set xs i v) i ≡ some v
  unfolding set
  get_elem?-set_self [] i v h = absurd (omega arith)
  get_elem?-set_self (x ∷ xs) zero v h = refl
  get_elem?-set_self (x ∷ xs) (suc i) v h = get_elem?-set_self xs i v (omega arith)

  get_elem?-set_other :
      (xs : List A) (i j : ℕ) (v : A) → (i == j) ≡ false → get_elem? (set xs i v) j ≡ get_elem? xs j
  unfolding set
  get_elem?-set_other [] i j v h = refl
  get_elem?-set_other (x ∷ xs) zero zero v h = cc
  get_elem?-set_other (x ∷ xs) zero (suc j) v h = refl
  get_elem?-set_other (x ∷ xs) (suc i) zero v h = refl
  get_elem?-set_other (x ∷ xs) (suc i) (suc j) v h = get_elem?-set_other xs i j v (ground arith)

  -- Lists of one length that agree at every index are equal.
  all_elems :
      (xs : List (Option A)) (ys : List A)
      → length xs ≡ length ys
      → ((i : ℕ) → i < length ys → get_elem? xs i ≡ some (get_elem? ys i))
      → xs ≡ map some ys
  all_elems [] [] e h = refl
  all_elems [] (y ∷ ys) e h = absurd (omega arith)
  all_elems (x ∷ xs) [] e h = absurd (omega arith)
  all_elems (x ∷ xs) (y ∷ ys) e h =
      let here : x ≡ some y = some_injective (h 0 (omega arith)) in
      let rest = all_elems xs ys (omega arith) (λ i k. h (suc i) (omega arith)) in rw (here, rest)

-- One of the indices is the given one.
abbrev is_busy : ℕ → List ℕ → Bool
is_busy i busy = any (λ j. j == i) busy

still_busy :
    (i j : ℕ) (before after : List ℕ)
    → (i == j) ≡ false
    → is_busy j (before ++ (i ∷ after)) ≡ is_busy j (before ++ after)
still_busy i j [] after h = rw h
still_busy i j (b ∷ before) after h = rw (still_busy i j before after h)

below_of_busy : (n i : ℕ) (before after : List ℕ) → All (λ j. j < n) (before ++ (i ∷ after)) → i < n
below_of_busy n i [] after (p, _) = p
below_of_busy n i (b ∷ before) after (_, h) = below_of_busy n i before after h

others_below :
    (n i : ℕ) (before after : List ℕ)
    → All (λ j. j < n) (before ++ (i ∷ after))
    → All (λ j. j < n) (before ++ after)
others_below n i [] after (_, h) = h
others_below n i (b ∷ before) after (p, h) = (p, others_below n i before after h)

module _ (results : List UpstreamResult) where
  -- What holds between the steps.
  record Inv (p : Pool) : Type 0 where
    sized : length p.out ≡ length results
    in_range : All (λ j. j < length results) p.busy
    written :
        (i : ℕ)
        → i < length results
        → i < p.next
        → (is_busy i p.busy ≡ true) ⊎ (get_elem? p.out i ≡ some (get_elem? results i))
    working : (1 ≤ p.idle + length p.busy) ⊎ (length results ≤ p.next)

  begin-Inv : (c : ℕ) → Inv (begin results c)
  unfolding begin concurrency
  begin-Inv c = record {
    sized = length-replicate (length results) none;
    in_range = tt;
    written = λ i h k. absurd (omega arith);
    working = inl (omega arith);
  }

  written-takes :
      (p : Pool) (i : ℕ)
      → Inv p
      → i < length results
      → i < suc p.next
      → (is_busy i (p.next ∷ p.busy) ≡ true) ⊎ (get_elem? p.out i ≡ some (get_elem? results i))
  written-takes p i v h k = elim (Bool-cases (p.next == i)) [
    | inl e ↦ inl (rw e)
    | inr e ↦ elim (v.written i h (ground arith)) [ inl b ↦ inl (rw (e, b)) | inr w ↦ inr w ]
  ]

  written-finishes :
      (p : Pool) (before : List ℕ) (i : ℕ) (after : List ℕ) (j : ℕ)
      → p.busy ≡ before ++ (i ∷ after)
      → Inv p
      → j < length results
      → j < p.next
      → (is_busy j (before ++ after) ≡ true)
        ⊎ (get_elem? (set p.out i (get_elem? results i)) j ≡ some (get_elem? results j))
  written-finishes p before i after j e v h k = elim (Bool-cases (i == j)) [
    | inl same ↦
        let ij : i ≡ j = ground arith in
        inr (rw ij (get_elem?-set_self p.out j (get_elem? results j) (rw v.sized h)))
    | inr other ↦ elim (v.written j h k) [
      | inl b ↦ inl (rw (← still_busy i j before after other, ← e) b)
      | inr w ↦ inr (rw (get_elem?-set_other p.out i j (get_elem? results i) other) w)
    ]
  ]

  Step-Inv : {p p' : Pool} → Step results p p' → Inv p → Inv p'
  Step-Inv (takes p workers e h) v = record {
    sized = v.sized;
    in_range = (h, v.in_range);
    written = λ i a b. written-takes p i v a b;
    working = inl (omega arith);
  }
  Step-Inv (leaves p workers e h) v = record {
    sized = v.sized;
    in_range = v.in_range;
    written = λ i a b. v.written i a (omega arith);
    working = inr (omega arith);
  }
  Step-Inv (finishes p before i after e) v = record {
    sized = length-set p.out i (get_elem? results i) ∙ v.sized;
    in_range = others_below (length results) i before after (rw e at v.in_range);
    written = λ j a b. written-finishes p before i after j e v a b;
    working = inl (omega arith);
  }

  Run-Inv : (c k : ℕ) {p : Pool} → Run results c k p → Inv p
  Run-Inv c k starts = begin-Inv c
  Run-Inv c k (then_step {k = k'} r s) = Step-Inv s (Run-Inv c k' r)

  -- What is left to do.
  measure : Pool → ℕ
  measure p = 2 * (length results - p.next) + 2 * length p.busy + p.idle

  Step-measure : {p p' : Pool} → Step results p p' → suc (measure p') ≡ measure p
  unfolding measure
  Step-measure (takes p workers e h) = omega arith
  Step-measure (leaves p workers e h) = omega arith
  Step-measure (finishes p before i after e) =
      omega (arith, ap length e, length-append before (i ∷ after), length-append before after)

  Run-measure :
      (c k : ℕ) {p : Pool}
      → Run results c k p
      → k + measure p ≡ 2 * length results + concurrency c (length results)
  unfolding measure begin
  Run-measure c k starts = omega arith
  Run-measure c k (then_step {k = k'} r s) = omega (arith, Step-measure s, Run-measure c k' r)

  Step-busy : {p p' : Pool} → Step results p p' → length p'.busy + p'.idle ≤ length p.busy + p.idle
  Step-busy (takes p workers e h) = omega arith
  Step-busy (leaves p workers e h) = omega arith
  Step-busy (finishes p before i after e) =
      omega (arith, ap length e, length-append before (i ∷ after), length-append before after)

  Run-busy :
      (c k : ℕ) {p : Pool}
      → Run results c k p
      → length p.busy + p.idle ≤ concurrency c (length results)
  unfolding begin
  Run-busy c k starts = omega arith
  Run-busy c k (then_step {k = k'} r s) = omega (arith, Step-busy s, Run-busy c k' r)

  -- A worker can step, as long as one has not left.
  Step-exists : (p : Pool) → AllLeft results p ⊎ ((p' : Pool) × Step results p p')
  Step-exists p = elim (Bool-cases (p.idle == 0)) [
    | inr some_idle ↦
        let e : p.idle ≡ suc (p.idle - 1) = ground arith in
        elim (Bool-cases (ltb p.next (length results))) [
          | inl more ↦ inr (_, takes p (p.idle - 1) e (ltb→lt _ _ more))
          | inr done ↦ inr (_, leaves p (p.idle - 1) e (ground arith))
        ]
    | inl none_idle ↦ busy_or_done (ground arith) p.busy refl
  ]
    where
      busy_or_done :
          p.idle ≡ 0
          → (busy : List ℕ) → p.busy ≡ busy
          → AllLeft results p ⊎ ((p' : Pool) × Step results p p')
      busy_or_done h [] e = inl (h, e)
      busy_or_done h (i ∷ busy) e = inr (_, finishes p [] i busy e)

  taken_of_left :
      (c k : ℕ) {p : Pool} → Run results c k p → AllLeft results p → length results ≤ p.next
  taken_of_left c k {p} r (idle, busy) = elim ((Run-Inv c k r).working) [
    | inl h ↦ absurd (omega (arith, ap length busy))
    | inr h ↦ h
  ]

  -- Whatever the order of the steps: when all workers have left, the array holds the result of every server at
  -- its index.
  pub out-results :
      (c k : ℕ) {p : Pool} → Run results c k p → AllLeft results p → p.out ≡ map some results
  out-results c k {p} r (idle, busy) =
      let v = Run-Inv c k r in
      let all_taken = taken_of_left c k r (idle, busy) in
      all_elems p.out results v.sized λ i h. elim (v.written i h (omega arith)) [
        | inl b ↦ let none_busy : is_busy i [] ≡ true = rw busy at b in cc
        | inr w ↦ w
      ]

  -- Whatever the order of the steps: never more servers are asked at a time than there are workers, and
  -- a worker can step as long as one has not left. When all have left, exactly two steps for each server and
  -- one for each worker were made; so every order of the steps comes to that end.
  pub Run-ends :
      (c k : ℕ) {p : Pool}
      → Run results c k p
      → (length p.busy + p.idle ≤ concurrency c (length results))
        × (k ≤ 2 * length results + concurrency c (length results))
        × (((p' : Pool) × Step results p p')
            ⊎ (AllLeft results p × (k ≡ 2 * length results + concurrency c (length results))))
  unfolding measure
  Run-ends c k {p} r = (
    Run-busy c k r,
    omega (arith, Run-measure c k r),
    elim (Step-exists p) [
      | inl left ↦
          let all_taken = taken_of_left c k r left in
          inr (left, omega (arith, Run-measure c k r, ap length left.1))
      | inr s ↦ inl s
    ],
  )
