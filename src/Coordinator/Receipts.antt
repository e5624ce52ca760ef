-- ===== src/Coordinator/Receipts.antt =====
-- coordinator/src/routes/receipts.ts, with the shape of core/credits/receipts.ts: receipts of a node's work, which are checked and
-- credited. The signature of a receipt over its canonical text, the signature of the resolver, and the
-- hash of a receipt are parameters; the resolver's check throws for malformed hexadecimal.
use decentralized_dns.Prelude.{
  Bool, true, false, ◌&&◌, ◌||◌, not, ◌++◌, Option, some, none, Text, String, codes, text_eq,
  Result, ok, err, ◌>>=◌, if◌then◌else◌,
}
use decentralized_dns.Prelude.Doubles.{Double, less, truthy}
use decentralized_dns.Prelude.Floats.{plus}
use decentralized_dns.Prelude.Maps.{lookup, assign}
use decentralized_dns.Continuity.{includes}
use decentralized_dns.Coordinator.{
  ReceiptType, serve, verify, store, Receipt, ReceiptEnvelope, Challenge, CreditsState, credit,
  apply_rate_limit,
}
use decentralized_dns.Coordinator.Comments.{is_blank}

pub record ReceiptConfig : Type 0 where
  pub serve_credits : Double
  pub verify_credits : Double
  pub store_credits : Double
  pub resolver_pubkey_hex : Text
  pub allow_unverified_serve : Bool
  pub max_per_minute : Double

pub record Checks : Type 0 where
  pub receipt_signature : ReceiptEnvelope → Result Bool
  pub message_signature : Text → Text → Text → Result Bool
  pub receipt_id : Receipt → Text

abbrev pub known_type : Option ReceiptType → Bool
known_type (some serve) = true
known_type (some verify) = true
known_type (some store) = true
known_type _ = false

abbrev pub has_type : Option ReceiptType → Bool
has_type none = false
has_type (some _) = true

-- The error of `validateReceiptShape`, if there is one.
unfoldable pub validate_receipt_shape : ReceiptEnvelope → Option String
validate_receipt_shape e =
    if is_blank e.signature || is_blank e.public_key
    then some "MISSING_FIELDS"
    else if not (has_type e.receipt.type) || is_blank e.receipt.node_id || not (truthy e.receipt.ts)
    then some "MISSING_FIELDS"
    else if not (text_eq e.receipt.node_id e.public_key)
    then some "NODE_ID_MISMATCH"
    else if not (known_type e.receipt.type)
    then some "UNKNOWN_TYPE"
    else none

-- A receipt that is known is let through; the rate of a new one is counted.
unfoldable pub rate_receipt :
    ReceiptConfig
    → Text
    → Double
    → CreditsState
    → Option ReceiptEnvelope
    → Option String × CreditsState
unfolding apply_rate_limit
rate_receipt cfg node now s (some _) = (none, s)
rate_receipt cfg node now s none =
    let rated = apply_rate_limit s.rate node cfg.max_per_minute now in
    (if rated.0 then none else some "RATE_LIMITED", record s { rate = rated.1 })

-- What `validateAndApplyReceipt` does with a receipt of the right shape.
unfoldable pub admit_receipt :
    Checks → ReceiptConfig → ReceiptEnvelope → Double → CreditsState → Option String × CreditsState
unfolding rate_receipt includes
admit_receipt checks cfg e now s =
    if not (includes s.passports e.receipt.node_id)
      && not (includes s.node_pubkeys e.receipt.node_id)
    then (some "PASSPORT_REQUIRED", s)
    else rate_receipt cfg e.receipt.node_id now s (lookup (checks.receipt_id e.receipt) s.receipts)

abbrev pub validate_shaped :
    Checks
    → ReceiptConfig
    → ReceiptEnvelope
    → Double
    → CreditsState
    → Option String
    → Option String × CreditsState
validate_shaped checks cfg e now s (some problem) = (some problem, s)
validate_shaped checks cfg e now s none = admit_receipt checks cfg e now s

unfoldable pub validate_and_apply_receipt :
    Checks → ReceiptConfig → ReceiptEnvelope → Double → CreditsState → Option String × CreditsState
unfolding validate_receipt_shape admit_receipt
validate_and_apply_receipt checks cfg e now s =
    validate_shaped checks cfg e now s (validate_receipt_shape e)

-- Whether a receipt of type SERVE carries what it needs: the error, if there is one.
unfoldable pub check_serve : Checks → ReceiptConfig → Receipt → Result (Option String)
check_serve checks cfg r =
    if is_blank cfg.resolver_pubkey_hex && not cfg.allow_unverified_serve
    then ok (some "AUTHORITY_SIG_REQUIRED")
    else if not (is_blank cfg.resolver_pubkey_hex)
        && not (is_blank r.authority_sig)
        && not (is_blank r.result_hash)
    then (checks.message_signature cfg.resolver_pubkey_hex (codes "resolve\n" ++ r.result_hash)
          r.authority_sig
        >>= λ expected. ok (if expected then none else some "AUTHORITY_SIG_INVALID"))
    else if not (is_blank cfg.resolver_pubkey_hex) && not cfg.allow_unverified_serve
    then ok (some "AUTHORITY_SIG_REQUIRED")
    else ok none

abbrev pub same_chunk : Option Text → Text → Bool
same_chunk none chunk = false
same_chunk (some hash) chunk = text_eq hash chunk

abbrev pub answers : Receipt → Double → Option Challenge → Bool
answers r now none = false
answers r now (some c) =
    text_eq c.wallet r.node_id
    && not (less c.expires_at now)
    && same_chunk r.chunk_hash c.chunk_hash

unfoldable pub check_verify : CreditsState → Receipt → Double → Result (Option String)
check_verify s r now =
    let challenge = if is_blank r.challenge_id then none else lookup r.challenge_id s.challenges in
    ok (if answers r now challenge then none else some "CHALLENGE_INVALID")

-- The check of a receipt's type and the credits that it earns.
abbrev pub check_type :
    Checks
    → ReceiptConfig
    → CreditsState
    → Receipt
    → Double
    → Option ReceiptType
    → Result (Option String)
check_type checks cfg s r now (some serve) = check_serve checks cfg r
check_type checks cfg s r now (some verify) = check_verify s r now
check_type checks cfg s r now _ = ok none

abbrev pub credits_for : ReceiptConfig → Option ReceiptType → Option Double
credits_for cfg (some serve) = some cfg.serve_credits
credits_for cfg (some verify) = some cfg.verify_credits
credits_for cfg (some store) = some cfg.store_credits
credits_for cfg _ = none

abbrev pub pay_node : Text → Option Double → CreditsState → CreditsState
pay_node node none s = s
pay_node node (some amount) s = credit s node amount

unfoldable pub pay_receipt : Checks → ReceiptConfig → ReceiptEnvelope → CreditsState → CreditsState
unfolding credit
pay_receipt checks cfg e s =
    let paid = pay_node e.receipt.node_id (credits_for cfg e.receipt.type) s in
    record paid { receipts = assign (checks.receipt_id e.receipt) e paid.receipts }

-- The answer of a receipt that was admitted, with the outcome of its check: `none` for `{ ok: true }`.
unfoldable pub pay_checked :
    Checks
    → ReceiptConfig
    → ReceiptEnvelope
    → CreditsState
    → Result (Option String)
    → Result (Option String) × CreditsState
unfolding pay_receipt
pay_checked checks cfg e s (err message) = (err message, s)
pay_checked checks cfg e s (ok (some problem)) = (ok (some problem), s)
pay_checked checks cfg e s (ok none) = (ok none, pay_receipt checks cfg e s)

-- What follows the check of the receipt's signature, which throws for a key or signature of a wrong size.
unfoldable pub pay_signed :
    Checks
    → ReceiptConfig
    → ReceiptEnvelope
    → Double
    → CreditsState
    → Result Bool
    → Result (Option String) × CreditsState
unfolding pay_checked check_serve check_verify
pay_signed checks cfg e now s (err message) = (err message, s)
pay_signed checks cfg e now s (ok false) = (ok (some "INVALID_SIGNATURE"), s)
pay_signed checks cfg e now s (ok true) =
    pay_checked checks cfg e s (check_type checks cfg s e.receipt now e.receipt.type)

unfoldable pub apply_admitted :
    Checks
    → ReceiptConfig
    → ReceiptEnvelope
    → Double
    → Option String
    → CreditsState
    → Result (Option String) × CreditsState
unfolding pay_signed
apply_admitted checks cfg e now (some problem) s = (ok (some problem), s)
apply_admitted checks cfg e now none s = pay_signed checks cfg e now s (checks.receipt_signature e)

unfoldable pub apply_receipt :
    Checks
    → ReceiptConfig
    → ReceiptEnvelope
    → Double
    → CreditsState
    → Result (Option String) × CreditsState
unfolding validate_and_apply_receipt apply_admitted
apply_receipt checks cfg e now s =
    let pre = validate_and_apply_receipt checks cfg e now s in
    apply_admitted checks cfg e now pre.0 pre.1

unfoldable pub create_challenge : CreditsState → Text → Text → Text → Double → Double → CreditsState
create_challenge s id wallet chunk_hash ttl_ms now = record s {
  challenges =
      assign id (record { wallet = wallet; chunk_hash = chunk_hash; expires_at = plus now ttl_ms })
        s.challenges;
}
