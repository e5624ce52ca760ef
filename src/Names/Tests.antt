-- ===== src/Names/Tests.antt =====
-- Runs of the name rules, and the property of normalisation at a concrete name.
use decentralized_dns.Prelude.{◌≡◌, refl, true, Text, codes, text_eq, trim, to_lower_case, ok, err}
use decentralized_dns.Names.{
  split, join, ends_with_dot, without_last, is_label, validate_normalized_name, normalize_name,
  validate_dns_label, normalize_dns_label,
}
use decentralized_dns.Names.Normal.{normalize_name_idempotent}

runs : Unit {0}
unfolding text_eq trim to_lower_case split join ends_with_dot without_last is_label
    validate_normalized_name normalize_name validate_dns_label normalize_dns_label
runs = tt

abbrev as_is : Text → Text
as_is label = label

as_is_same : (label : Text) → is_label label ≡ true → as_is label ≡ label
as_is_same label h = refl

normal_name : normalize_name as_is (codes " Shop.Example. ") ≡ ok (codes "shop.example")
unfolding runs
normal_name = refl

gap : normalize_name as_is (codes "shop..example") ≡ err "empty label"
unfolding runs
gap = refl

short_label : normalize_dns_label (codes "Ass") ≡ err "invalid length"
unfolding runs
short_label = refl

label_lowered : normalize_dns_label (codes "My-Shop") ≡ ok (codes "my-shop")
unfolding runs
label_lowered = refl

normalize_name_idempotent_example :
    (validate_normalized_name (codes "shop.example") ≡ ok tt)
    × (normalize_name as_is (codes "shop.example") ≡ ok (codes "shop.example"))
normalize_name_idempotent_example =
    normalize_name_idempotent as_is (codes " Shop.Example. ") (codes "shop.example") as_is_same
      normal_name
