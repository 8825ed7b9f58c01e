-- ===== src/Headers/Tests.antt =====
-- Header plans and forwarded chains of the tests in headers.rs, with the theorems applied to them.
use lagos.Prelude.{
  ◌≡◌, refl, Bool, true, false, leb, Option, none, some, List, [], ◌∷◌, ◌++◌, arith,
}
use lagos.Text.{Text, codes, split, trim, to_ascii_lowercase, starts_with, contains_text}
use lagos.Headers.{
  HeaderPlan, new, set_header, trusted_suffix, chain_entries, client_address, forwarded_for,
  forwarded_for_chain, add_body_chunk, first, is_upload_content_type,
}
use lagos.Headers.Forwarded.{listed, forged_prefix_ignored, real_ip-eq-client_address}

abbrev plan : HeaderPlan
plan = set_header new (codes "X-Api-Key") (codes "secret")

-- Addresses are what starts with a digit.
abbrev is_ip : Text → Bool
is_ip [] = false
is_ip (c ∷ cs) = leb c b'9'

abbrev peer : Option Text
peer = some (codes "10.1.2.3")

forged_prefix_ignored_example :
    trusted_suffix is_ip (some (codes "9.9.9.9" ++ b',' ∷ codes "203.0.113.7")) peer 1
    ≡ trusted_suffix is_ip (some (codes "203.0.113.7")) peer 1
unfolding split
forged_prefix_ignored_example =
    forged_prefix_ignored is_ip (codes "9.9.9.9") (codes "203.0.113.7") peer 1 (omega arith)

two_hops :
    client_address is_ip (some (codes "9.9.9.9, 203.0.113.7, 70.41.3.18")) peer 2
    ≡ some (codes "203.0.113.7")
unfolding client_address trusted_suffix chain_entries split trim
two_hops = refl

real_ip-eq-client_address_example :
    ((forwarded_for is_ip (some (codes "1.1.1.1") ∷ []) peer 1).1
      ≡ client_address is_ip (forwarded_for_chain (some (codes "1.1.1.1") ∷ [])) peer 1)
    × (addresses : List Text) × ((forwarded_for is_ip (some (codes "1.1.1.1") ∷ []) peer 1).0
        ≡ listed addresses)
    × ((forwarded_for is_ip (some (codes "1.1.1.1") ∷ []) peer 1).1 ≡ first addresses)
real_ip-eq-client_address_example =
    real_ip-eq-client_address is_ip (some (codes "1.1.1.1") ∷ []) peer 1

body_over_the_cap : (add_body_chunk 90 10 100 ≡ some 100) × (add_body_chunk 90 11 100 ≡ none)
unfolding add_body_chunk
body_over_the_cap = (refl, refl)

uploads :
    (is_upload_content_type (some (codes "Image/png")) ≡ true)
    × (is_upload_content_type (some (codes "text/plain")) ≡ false)
unfolding is_upload_content_type to_ascii_lowercase starts_with contains_text
uploads = (refl, refl)
