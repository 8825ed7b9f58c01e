-- ===== src/Binding/Tests.antt =====
-- A binding of a query parameter to a claim, with the theorems applied to it.
use lagos.Prelude.{◌≡◌, refl, true, false, none, some}
use lagos.Text.{Text, codes, split}
use lagos.Binding.{
  Identity, Binding, query, claim, object, string, field, end, permits, parse, supplied, proven,
  Value,
}
use lagos.Binding.Ownership.{IsOnly, bound_query_is_owned}

abbrev caller : Identity
caller = record {
  subject = codes "u1";
  issuer = codes "i";
  audience = codes "a";
  claims = field (codes "company_id") (string (codes "c 7")) end;
}

abbrev binding : Binding
binding = record { source = query (codes "merchantId"); target = claim (codes "companyId") }

parsed : parse (codes "query.merchantId") (codes "identity.companyId") ≡ some binding
unfolding parse lagos.Text.split_once lagos.Text.text_eq lagos.Text.strip_prefix
parsed = refl

refused :
    permits some binding caller (some (codes "merchantId=c+7&merchantId=c+8")) (λ name. none)
    ≡ false
unfolding permits supplied proven lagos.Binding.query_param lagos.Binding.query_pairs
    lagos.Binding.percent_decode lagos.Binding.plus_to_space lagos.Binding.key_and_value
    lagos.Binding.claim_at lagos.Binding.get lagos.Binding.get_either lagos.Binding.to_snake_case
    lagos.Binding.scalar_to_string lagos.Text.split lagos.Text.split_once lagos.Text.text_eq
    lagos.Text.lower_char
refused = refl

passed : permits some binding caller (some (codes "x=1&merchantId=c+7")) (λ name. none) ≡ true
unfolding permits supplied proven lagos.Binding.query_param lagos.Binding.query_pairs
    lagos.Binding.percent_decode lagos.Binding.plus_to_space lagos.Binding.key_and_value
    lagos.Binding.claim_at lagos.Binding.get lagos.Binding.get_either lagos.Binding.to_snake_case
    lagos.Binding.scalar_to_string lagos.Text.split lagos.Text.split_once lagos.Text.text_eq
    lagos.Text.lower_char
passed = refl

bound_query_is_owned_example :
    (v : Text) × IsOnly some (codes "merchantId") (split b'&' (codes "x=1&merchantId=c+7")) v
    × (proven (claim (codes "companyId")) caller ≡ some v)
bound_query_is_owned_example =
    bound_query_is_owned some (codes "merchantId") (claim (codes "companyId")) caller
      (codes "x=1&merchantId=c+7") (λ name. none) passed
