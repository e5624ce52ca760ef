-- ===== src/Recursive/Cache/Load.antt =====
-- `persist` and `loadCache` of gateway/src/adapters/recursive.ts: the cache as the JSON file keeps it. The elements of
-- the arrays `answers` and `upstreamsUsed`, which `loadCache` does not inspect, are kept as they are.
use decentralized_dns.Prelude.{
  ◌≡◌, refl, ap, ◌∙◌, Bool, true, false, List, [], ◌∷◌, ◌++◌, Option, some, none, ℤ, Text, codes,
  text_eq, if◌then◌else◌,
}
use decentralized_dns.Prelude.All.{All}
use decentralized_dns.Prelude.Doubles.{Double, finite, is_finite, given}
use decentralized_dns.Recursive.{
  Runtime, ConfidenceLevel, high, medium, low, Status, no_error, nx_domain, failed, DnsRecord, Json,
  null, number, string, units, number_given,
}
use decentralized_dns.Recursive.Cache.{UpstreamAudit, ChosenUpstream, CacheEntry, Entries}

pub record StoredUpstream : Type 0 where
  pub url : Json
  pub rtt_ms : Option ℤ

-- The properties of a stored entry that is an object.
pub record StoredEntry : Type 0 where
  pub qname : Json
  pub qtype : Json
  pub answers : Option (List DnsRecord)
  pub ttl_s : Json
  pub fetched_at : Json
  pub expires_at : Json
  pub stale_until : Json
  pub source_status : Json
  pub confidence : Json
  pub rrset_hash : Json
  pub upstreams_used : Option (List UpstreamAudit)
  pub chosen_upstream : Option StoredUpstream

-- The file: it is not there or cannot be read, it has no object `entries`, or it has one, with the
-- values that are objects and those that are not.
pub data CacheFile : Type 0 where
  unreadable no_entries : CacheFile
  entries : (stored : List (Text × Option StoredEntry)) → CacheFile

abbrev pub is_string : Text → Json → Bool
is_string wanted (string s) = text_eq s wanted
is_string wanted _ = false

unfoldable pub load_status : Json → Status
load_status v = if is_string (codes "NXDOMAIN") v then nx_domain else no_error

unfoldable pub load_confidence : Json → ConfidenceLevel
load_confidence v =
    if is_string (codes "high") v
    then high
    else if is_string (codes "medium") v
    then medium
    else low

abbrev pub unknown_upstream : ChosenUpstream
unknown_upstream = record { url = codes "unknown"; rtt_ms = ℤ.pos 0 }

abbrev pub complete_upstream : Json → Option ℤ → ChosenUpstream
complete_upstream (string url) (some rtt_ms) = record { url = url; rtt_ms = rtt_ms }
complete_upstream _ _ = unknown_upstream

unfoldable pub load_upstream : Option StoredUpstream → ChosenUpstream
load_upstream none = unknown_upstream
load_upstream (some u) = complete_upstream u.url u.rtt_ms

module _ (rt : Runtime) (now_s : Double) where
  abbrev pub load_hash : Text → Text → Json → Text
  load_hash qname qtype (string hash) = hash
  load_hash qname qtype _ = rt.hash_hex (qtype ++ codes "|" ++ qname ++ codes "|")

  unfoldable pub load_named : Text → Text → StoredEntry → CacheEntry
  unfolding load_status load_confidence load_upstream number_given
  load_named qname qtype v = record {
    qname = qname;
    qtype = qtype;
    answers = given v.answers [];
    ttl_s = number_given rt v.ttl_s (units 60);
    fetched_at = number_given rt v.fetched_at now_s;
    expires_at = number_given rt v.expires_at now_s;
    stale_until = number_given rt v.stale_until now_s;
    source_status = load_status v.source_status;
    confidence = load_confidence v.confidence;
    rrset_hash = load_hash qname qtype v.rrset_hash;
    upstreams_used = given v.upstreams_used [];
    chosen_upstream = load_upstream v.chosen_upstream;
  }

  -- An entry whose `qname` and `qtype` are no strings is left out.
  unfoldable pub load_typed : Json → Json → StoredEntry → Option CacheEntry
  unfolding load_named
  load_typed (string qname) (string qtype) v = some (load_named qname qtype v)
  load_typed _ _ v = none

  unfoldable pub load_entry : Option StoredEntry → Option CacheEntry
  unfolding load_typed
  load_entry none = none
  load_entry (some v) = load_typed v.qname v.qtype v

  abbrev pub push_loaded : Text → Option CacheEntry → Entries → Entries
  push_loaded k none rest = rest
  push_loaded k (some e) rest = (k, e) ∷ rest

  unfoldable pub load_entries : List (Text × Option StoredEntry) → Entries
  unfolding load_entry
  load_entries [] = []
  load_entries ((k, v) ∷ stored) = push_loaded k (load_entry v) (load_entries stored)

  unfoldable pub load_cache : CacheFile → Entries
  unfolding load_entries
  load_cache unreadable = []
  load_cache no_entries = []
  load_cache (entries stored) = load_entries stored

-- `JSON.stringify` of a number: NaN and the infinities become null.
abbrev pub stored_number : Double → Json
stored_number (finite a) = number (finite a)
stored_number _ = null

unfoldable pub status_text : Status → Text
status_text no_error = codes "NOERROR"
status_text nx_domain = codes "NXDOMAIN"
status_text failed = codes "ERROR"

unfoldable pub confidence_text : ConfidenceLevel → Text
confidence_text high = codes "high"
confidence_text medium = codes "medium"
confidence_text low = codes "low"

unfoldable pub stored_of : CacheEntry → StoredEntry
unfolding status_text confidence_text
stored_of e = record {
  qname = string e.qname;
  qtype = string e.qtype;
  answers = some e.answers;
  ttl_s = stored_number e.ttl_s;
  fetched_at = stored_number e.fetched_at;
  expires_at = stored_number e.expires_at;
  stale_until = stored_number e.stale_until;
  source_status = string (status_text e.source_status);
  confidence = string (confidence_text e.confidence);
  rrset_hash = string e.rrset_hash;
  upstreams_used = some e.upstreams_used;
  chosen_upstream =
      some (record { url = string e.chosen_upstream.url; rtt_ms = some e.chosen_upstream.rtt_ms });
}

abbrev pub stored_entries : Entries → List (Text × Option StoredEntry)
stored_entries [] = []
stored_entries ((k, e) ∷ rest) = (k, some (stored_of e)) ∷ stored_entries rest

-- The payload that `persist` writes.
unfoldable pub persist : Entries → CacheFile
unfolding stored_of
persist cached = entries (stored_entries cached)

-- An entry whose times are numbers and whose question was answered.
pub record Storable (e : CacheEntry) : Type 0 where
  pub ttl : is_finite e.ttl_s ≡ true
  pub fetched : is_finite e.fetched_at ≡ true
  pub expires : is_finite e.expires_at ≡ true
  pub until : is_finite e.stale_until ≡ true
  pub status : text_eq (status_text e.source_status) (codes "ERROR") ≡ false

stored_number_lem :
    (rt : Runtime) (d default : Double)
    → is_finite d ≡ true
    → number_given rt (stored_number d) default ≡ d
unfolding number_given
stored_number_lem rt (finite a) default h = refl
stored_number_lem rt Double.nan default h = cc
stored_number_lem rt Double.infinity default h = cc
stored_number_lem rt Double.neg_infinity default h = cc

load_status-status_text :
    (s : Status)
    → text_eq (status_text s) (codes "ERROR") ≡ false
    → load_status (string (status_text s)) ≡ s
unfolding load_status status_text text_eq
load_status-status_text no_error h = refl
load_status-status_text nx_domain h = refl
load_status-status_text failed h = cc

load_confidence-confidence_text :
    (c : ConfidenceLevel) → load_confidence (string (confidence_text c)) ≡ c
unfolding load_confidence confidence_text text_eq
load_confidence-confidence_text high = refl
load_confidence-confidence_text medium = refl
load_confidence-confidence_text low = refl

load_entry-stored_of :
    (rt : Runtime) (now_s : Double) (e : CacheEntry)
    → Storable e
    → load_entry rt now_s (some (stored_of e)) ≡ some e
unfolding load_entry load_typed load_named stored_of load_upstream
load_entry-stored_of rt now_s e s = rw (
  stored_number_lem rt e.ttl_s (units 60) s.ttl,
  stored_number_lem rt e.fetched_at now_s s.fetched,
  stored_number_lem rt e.expires_at now_s s.expires,
  stored_number_lem rt e.stale_until now_s s.until,
  load_status-status_text e.source_status s.status,
  load_confidence-confidence_text e.confidence,
)

-- A cache whose entries have finite times and answered questions is the same after it was written to the
-- file and loaded again, at any time.
pub load_cache-persist :
    (rt : Runtime) (now_s : Double) (cached : Entries)
    → All (λ e. Storable e.1) cached
    → load_cache rt now_s (persist cached) ≡ cached
unfolding load_cache load_entries persist
load_cache-persist rt now_s [] h = refl
load_cache-persist rt now_s ((k, e) ∷ cached) (s, h) =
    ap (λ o. push_loaded rt now_s k o (load_entries rt now_s (stored_entries cached)))
      (load_entry-stored_of rt now_s e s)
    ∙ ap (λ es. (k, e) ∷ es) (load_cache-persist rt now_s cached h)
