-- ===== src/AttackMode/Quorum.antt =====
-- `fetchAccountMultiRpc` of packages/attack-mode/src/index.ts: the answers of several RPC servers, in
-- the order in which they arrive, are grouped by the hash of the account's data. `hash_hex` stands
-- for the SHA-256 of the decoded data.
pub mod Groups
pub mod Agreement
use decentralized_dns.Prelude.{
  ℕ, Bool, true, false, Option, some, none, List, [], ◌∷◌, ◌++◌, map, length, ltb, Text, text_eq,
  if◌then◌else◌,
}
use decentralized_dns.Prelude.Doubles.{Double}

-- What a server's request came to: an error, or the slot and the data of the answer.
pub data RpcReply : Type 0 where
  failed : (url err : Text) → RpcReply
  answered : (url : Text) (slot : Double) (data_base64 : Text) → RpcReply

pub record Group : Type 0 where
  pub hash : Text
  pub urls : List Text
  pub slot : Double
  pub data_base64 : Text

pub data Evidence : Type 0 where
  bad : (url err : Text) → Evidence
  good : (url : Text) (slot : Double) (data_hash_hex : Text) → Evidence

pub data MultiRpcAccountResult : Type 0 where
  agreed : (group : Group) → MultiRpcAccountResult
  refused : (evidence : List Evidence) (disagreement : Bool) → MultiRpcAccountResult

-- `groups.get(hash)`, extended by the url or set anew at the end of the map.
unfoldable pub join_group : Text → Text → Double → Text → List Group → List Group
join_group h url slot data_base64 [] =
    record { hash = h; urls = url ∷ []; slot = slot; data_base64 = data_base64 } ∷ []
join_group h url slot data_base64 (g ∷ groups) =
    if text_eq g.hash h
    then record g { urls = g.urls ++ (url ∷ []) } ∷ groups
    else g ∷ join_group h url slot data_base64 groups

-- The loop that picks the largest group, the first among equals.
unfoldable pub pick_best : Option Group → List Group → Option Group
pick_best best [] = best
pick_best none (g ∷ groups) = pick_best (some g) groups
pick_best (some best) (g ∷ groups) =
    pick_best (some (if ltb (length best.urls) (length g.urls) then g else best)) groups

module _ (hash_hex : Text → Text) where
  unfoldable pub group_replies : List RpcReply → List Group → List Group
  group_replies [] groups = groups
  group_replies (failed url err ∷ replies) groups = group_replies replies groups
  group_replies (answered url slot data_base64 ∷ replies) groups =
      group_replies replies (join_group (hash_hex data_base64) url slot data_base64 groups)

  unfoldable pub evidence_of : RpcReply → Evidence
  evidence_of (failed url err) = bad url err
  evidence_of (answered url slot data_base64) = good url slot (hash_hex data_base64)

  unfoldable pub settle : List RpcReply → ℕ → List Group → Option Group → MultiRpcAccountResult
  settle replies min_agree groups none = refused (map evidence_of replies) (ltb 1 (length groups))
  settle replies min_agree groups (some best) =
      if ltb (length best.urls) min_agree
      then refused (map evidence_of replies) (ltb 1 (length groups))
      else agreed best

  unfoldable pub fetch_account_multi_rpc : List RpcReply → ℕ → MultiRpcAccountResult
  unfolding settle
  fetch_account_multi_rpc replies min_agree =
      let groups = group_replies replies [] in
      settle replies min_agree groups (pick_best none groups)
