-- ===== src/Coordinator/Comments/Auth.antt =====
-- coordinator/src/routes/comment-auth.ts: the login of a commenter, who signs a challenge. A new challenge is an argument, in
-- place of random bytes.
use decentralized_dns.Prelude.{
  Bool, true, false, ◌&&◌, ◌||◌, not, List, [], ◌++◌, Option, some, none, Text, codes, text_eq,
  if◌then◌else◌,
}
use decentralized_dns.Prelude.Doubles.{Double, less, given}
use decentralized_dns.Prelude.Floats.{plus}
use decentralized_dns.Prelude.Maps.{lookup, assign}
use decentralized_dns.Prelude.Sorting.{filter}
use decentralized_dns.Coordinator.Comments.{is_blank}

pub record CommentChallenge : Type 0 where
  pub challenge : Text
  pub expires_at : Double

unfoldable pub create_comment_challenge :
    List (Text × CommentChallenge) → Text → Text → Double → Double → List (Text × CommentChallenge)
create_comment_challenge challenges wallet challenge ttl_ms now =
    assign wallet (record { challenge = challenge; expires_at = plus now ttl_ms }) challenges

-- `verifySolSignature` is Ed25519 over base58 and base64, which return false for malformed texts.
module _ (verify_sol_signature : Text → Text → Text → Bool) where
  abbrev pub answers_challenge : Text → Text → Option Text → Double → CommentChallenge → Bool
  answers_challenge wallet signature challenge now entry =
      not (less entry.expires_at now)
      && (is_blank (given challenge []) || text_eq (given challenge []) entry.challenge)
      && verify_sol_signature wallet (codes "ddns-comments-login:" ++ entry.challenge) signature

  abbrev pub verify_entry :
      List (Text × CommentChallenge)
      → Text
      → Text
      → Option Text
      → Double
      → Option CommentChallenge
      → Bool × List (Text × CommentChallenge)
  verify_entry challenges wallet signature challenge now none = (false, challenges)
  verify_entry challenges wallet signature challenge now (some entry) =
      if answers_challenge wallet signature challenge now entry
      then (true, filter (λ e. not (text_eq e.0 wallet)) challenges)
      else (false, challenges)

  unfoldable pub verify_comment_signature :
      List (Text × CommentChallenge)
      → Text
      → Text
      → Option Text
      → Double
      → Bool × List (Text × CommentChallenge)
  verify_comment_signature challenges wallet signature challenge now =
      verify_entry challenges wallet signature challenge now (lookup wallet challenges)
