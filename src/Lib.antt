-- ===== src/Lib.antt =====
-- A verification library of the decentralized DNS repository: the parts of its TypeScript code that
-- decide what is accepted, signed, proved and paid, translated to definitions that run, with the
-- theorems that make them correct.
--
-- The parts and how they interact. A client asks for a name with a wire packet (core/src/wire.ts); what
-- travels inside are route sets (core/src/outeset.ts), the signed DNS records of a name, and anchors
-- (core/src/anchor.ts), which commit to the hash of a route set. Both are signed through the wrappers
-- of core/src/crypto_ed25519.ts. The registry (core/src/registry_merkle.ts) commits to its records
-- by a Merkle root. A name that is not in the registry goes to the recursive adapter
-- (gateway/src/adapters/recursive.ts), which asks several servers and compares their answers. Nodes earn credits
-- by receipts at the coordinator (coordinator/src/server.ts), which comments spend.
--
--   Prelude          numbers, lists, integers, errors and texts that all parts share. A thrown error is
--                    `err` with its message; a JavaScript number is an integer or some other value
--                    (NaN, a fraction, an infinity), which every range check of the code rejects.
--   Bytes            core/src/bytes.ts. A byte array is a list of numbers; `IsBytes` says they are below 256.
--                    `DataView` writes a number modulo 2 ^ 16, 2 ^ 32 or 2 ^ 64, and reads out of
--                    bounds throw. Bytes.Cursor reads a buffer from the front, which is what
--                    the decoders do with an offset; Bytes.Hex is `hex` and `fromHex`.
--   Wire             core/src/wire.ts: the header and packets in Wire, the seven payloads in
--                    Wire.Payload, and core/src/wire_safe.ts with core/src/wire_limits.ts in Wire.Safe.
--   Crypto           core/src/crypto_ed25519.ts. The library that it wraps is the record `Ed25519`, with
--                    the documented sizes and that a signature made with a seed verifies under its key.
--   RouteSet         core/src/outeset.ts: codec, canonical order, signing and verification.
--   Anchor           core/src/anchor.ts, over the record `Blake3`, a hash of 32 bytes.
--   Merkle           core/src/registry_merkle.ts from the sorted leaves on; `digest` is the hash as text.
--   Names            core/src/normalize.ts, core/src/dns_name.ts and core/src/name_id.ts.
--   AttackMode       packages/attack-mode/src/index.ts: the modes and their evaluation; AttackMode.Quorum
--                    is `fetchAccountMultiRpc` from the answers of the servers on.
--   Escrow           labs/escrow/src/escrow.ts, with the calls as data and the states that they reach;
--                    Escrow.Vouchers is labs/escrow/src/vouchers.ts.
--   Continuity       core/src/domain_continuity_policy.ts.
--   Ledger           core/src/credits/ledger.ts, with the states that its JSON file can be in.
--   Registrar        core/src/registrar/mock_registrar.ts and the types of core/src/registrar/adapter.ts.
--   Recursive        gateway/src/adapters/recursive.ts, with normalizeNameForHash of gateway/src/adapters/types.ts:
--                    Recursive.Extract reads a server's answer (normalizeAndExtract, queryOneUpstream),
--                    Recursive.Workers is the pool of requests (queryUpstreams) as a step relation,
--                    Recursive.Select the choice among the answers (selectBest), Recursive.Cache the
--                    entries and their eviction (evictIfNeeded), Recursive.Cache.Resolve and .Answer the
--                    calls (refresh, resolveRecursive, resolve), and Recursive.Cache.Load the file
--                    of the cache (persist, loadCache).
--                    The record `Runtime` holds what the runtime gives.
--   Coordinator      coordinator/src/routes/credits.ts, receipts.ts, comments.ts and comment-auth.ts with
--                    core/credits/receipts.ts; Coordinator.Handlers has the handlers of
--                    coordinator/src/server.ts that move credits, daily caps and pools, as functions from
--                    the state to the answer and the state, and Coordinator.Interleaved runs them as the
--                    event loop does, where POST /receipts waits for a signature between its two
--                    pieces. Numbers are IEEE doubles: `Prelude.Doubles` has NaN, the infinities and
--                    the comparisons, `Prelude.Floats` the sums, differences and products, rounded to the
--                    nearest double, ties to even (0 and -0 are one number, which the code never
--                    tells apart), and Prelude.Floats.Whole that whole numbers are exact below 2 ^ 53.
--   TrafficOracle    services/traffic-oracle/src/scoring.ts, and TrafficOracle.RateLimit its rate_limit.ts.
--
-- Bounds and fuel. Fuel is in `build_layers` of Merkle: one unit for each leaf, and each layer
-- is shorter than the one below as long as it has more than one hash; and in `round` of Prelude.Floats, which
-- tries 2100 distances of doubles, while the largest double has distance 2 ^ 2045 in its units. The
-- reader of CNAME chains in Recursive.Extract makes at most 10 hops, which is the bound of the source. All other loops
-- are structural. `Array.prototype.sort` is stable and is modelled by insertion, which has
-- the same result for a consistent comparison.
--
-- Numbers of the other parts that calculate with `Double` (Ledger, Registrar, TrafficOracle, Recursive) are
-- counted in exact units, without the rounding of fractions and of sums from 2 ^ 53 on.
--
-- Not modelled: the HTTP servers, the Solana programs and their scripts, the workers, the user interfaces, file
-- and network input and output, and the text decoding of `TextDecoder`, which is a parameter. Of the
-- coordinator, the sessions and logins of wallets, the receipts that nodes send for a site, the
-- policy of the treasury and the governance.
pub mod Prelude
pub mod Bytes
pub mod Wire
pub mod Coordinator
pub mod Crypto
pub mod Recursive
pub mod RouteSet
pub mod Anchor
pub mod Merkle
pub mod AttackMode
pub mod Escrow
pub mod Continuity
pub mod Ledger
pub mod Names
pub mod Registrar
pub mod TrafficOracle
