-- ===== src/RouteSet/Order.antt =====
-- The canonical order of records in core/src/outeset.ts, and what it does not tell apart.
pub mod Compare
pub mod Canonical
use mathlib.Core.List.{Perm}
use mathlib.Core.List.Perm
use decentralized_dns.Prelude.{
  ℕ, ◌≡◌, refl, Bool, true, false, List, [], ◌∷◌, arith, leb_ℤ, pos, if◌then◌else◌, Bool-cases, inl,
  inr,
}
use decentralized_dns.RouteSet.{RecordV1, compare_records, insert_record, sort_records_canonical}
