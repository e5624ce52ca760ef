-- ===== src/Recursive/Workers.antt =====
-- gateway/src/adapters/recursive.ts, `queryUpstreams`: a pool of workers that share the counter `next` and write into
-- one array. Between two `await`s nothing else runs, so a step is what one worker does from one `await` to
-- the next; the order of the steps is open.
pub mod Order
use decentralized_dns.Prelude.{
  ℕ, zero, suc, ◌+◌, ◌≤◌, ◌<◌, ◌≡◌, List, [], ◌∷◌, ◌++◌, length, get_elem?, replicate, Option, some,
  none, min, max, map, Text, ℤ,
}
use decentralized_dns.Recursive.{Runtime, UpstreamResult}
use decentralized_dns.Recursive.Extract.{Fetched, query_one_upstream}

-- `out[i] = v`
unfoldable pub set {ℓ} : {A : Type ℓ} → List A → ℕ → A → List A
set [] i v = []
set (x ∷ xs) zero v = v ∷ xs
set (x ∷ xs) (suc i) v = x ∷ set xs i v

-- The counter, the indices whose servers were asked, the number of workers that are about to look at the counter, and the
-- array.
pub record Pool : Type 0 where
  pub next : ℕ
  pub busy : List ℕ
  pub idle : ℕ
  pub out : List (Option UpstreamResult)

-- `Math.max(1, Math.min(maxConcurrency, urls.length))`
unfoldable pub concurrency : ℕ → ℕ → ℕ
concurrency max_concurrency urls = max 1 (min max_concurrency urls)

-- The result of each server, from what `fetch` gives and the time that it takes.
unfoldable pub query_all : Runtime → Text → Text → List (Text × Fetched × ℤ) → List UpstreamResult
unfolding query_one_upstream
query_all rt qname qtype servers = map (λ s. query_one_upstream rt s.0 qname qtype s.1 s.2) servers

module _ (results : List UpstreamResult) where
  unfoldable pub begin : ℕ → Pool
  unfolding concurrency
  begin max_concurrency = record {
    next = 0;
    busy = [];
    idle = concurrency max_concurrency (length results);
    out = replicate (length results) none;
  }

  pub data Step : Pool → Pool → Type 0 where
    takes :
        (p : Pool) (workers : ℕ)
        → p.idle ≡ suc workers
        → p.next < length results
        → Step p (record p { next = suc p.next; busy = p.next ∷ p.busy; idle = workers })
    leaves :
        (p : Pool) (workers : ℕ)
        → p.idle ≡ suc workers
        → length results ≤ p.next
        → Step p (record p { next = suc p.next; idle = workers })
    finishes :
        (p : Pool) (before : List ℕ) (i : ℕ) (after : List ℕ)
        → p.busy ≡ before ++ (i ∷ after)
        → Step p (record p {
          busy = before ++ after;
          idle = suc p.idle;
          out = set p.out i (get_elem? results i);
        })

  -- A run of so many steps.
  pub data Run (max_concurrency : ℕ) : ℕ → Pool → Type 0 where
    starts : Run max_concurrency 0 (begin max_concurrency)
    then_step :
        {k : ℕ} {p p' : Pool} → Run max_concurrency k p → Step p p' → Run max_concurrency (suc k) p'

  -- `Promise.all` is done when every worker has left.
  abbrev pub AllLeft : Pool → Type 0
  AllLeft p = (p.idle ≡ 0) × (p.busy ≡ [])
