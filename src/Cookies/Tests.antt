-- ===== src/Cookies/Tests.antt =====
-- Cookies of the tests in auth/mod.rs, with the theorem applied to them.
use lagos.Prelude.{◌≡◌, refl, none, some, List, [], ◌∷◌}
use lagos.Text.{Text, codes}
use lagos.Cookies.{bearer_token, cookie_token, strip_cookies}
use lagos.Cookies.Stripping.{stripped_carries_no_token}

abbrev headers : List Text
headers = codes "theme=dark; session=abc;" ∷ (codes " lang=en" ∷ [])

abbrev names : List Text
names = codes "session" ∷ []

bearer_found : bearer_token (codes "Bearer  abc ") ≡ some (codes "abc")
unfolding bearer_token lagos.Cookies.split_once_whitespace lagos.Cookies.cookie_parts
    lagos.Cookies.pairs_of lagos.Cookies.cookie_pairs lagos.Cookies.find_pair lagos.Cookies.unquoted
    lagos.Cookies.token_of lagos.Cookies.keeps lagos.Cookies.name_of_pair lagos.Cookies.kept_pairs
    lagos.Text.split lagos.Text.split_once lagos.Text.join lagos.Text.trim lagos.Text.trim_start
    lagos.Text.trim_end lagos.Text.text_eq lagos.Text.eq_ignore_ascii_case
    lagos.Text.to_ascii_lowercase lagos.Text.lower_char lagos.Text.strip_suffix lagos.Text.cons_head
bearer_found = refl

found : cookie_token headers names ≡ some (codes "abc")
unfolding cookie_token lagos.Cookies.split_once_whitespace lagos.Cookies.cookie_parts
    lagos.Cookies.pairs_of lagos.Cookies.cookie_pairs lagos.Cookies.find_pair lagos.Cookies.unquoted
    lagos.Cookies.token_of lagos.Cookies.keeps lagos.Cookies.name_of_pair lagos.Cookies.kept_pairs
    lagos.Text.split lagos.Text.split_once lagos.Text.join lagos.Text.trim lagos.Text.trim_start
    lagos.Text.trim_end lagos.Text.text_eq lagos.Text.eq_ignore_ascii_case
    lagos.Text.to_ascii_lowercase lagos.Text.lower_char lagos.Text.strip_suffix lagos.Text.cons_head
found = refl

stripped : strip_cookies headers names ≡ some (codes "theme=dark; lang=en")
unfolding strip_cookies lagos.Cookies.split_once_whitespace lagos.Cookies.cookie_parts
    lagos.Cookies.pairs_of lagos.Cookies.cookie_pairs lagos.Cookies.find_pair lagos.Cookies.unquoted
    lagos.Cookies.token_of lagos.Cookies.keeps lagos.Cookies.name_of_pair lagos.Cookies.kept_pairs
    lagos.Text.split lagos.Text.split_once lagos.Text.join lagos.Text.trim lagos.Text.trim_start
    lagos.Text.trim_end lagos.Text.text_eq lagos.Text.eq_ignore_ascii_case
    lagos.Text.to_ascii_lowercase lagos.Text.lower_char lagos.Text.strip_suffix lagos.Text.cons_head
stripped = refl

stripped_carries_no_token_example : cookie_token (codes "theme=dark; lang=en" ∷ []) names ≡ none
stripped_carries_no_token_example =
    stripped_carries_no_token headers names (codes "theme=dark; lang=en") stripped
