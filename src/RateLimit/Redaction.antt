-- ===== src/RateLimit/Redaction.antt =====
-- What a URL of the shared store shows once it is redacted, and what it is once it is normalized,
-- crates/lagos-core/src/ratelimit/shared.rs.
use lagos.Prelude.{
  ◌≡◌, refl, ap, sym, ◌∙◌, if◌then◌else◌, false, some, [], ◌∷◌, ◌++◌, List, ◌⊎◌, inl, inr, ok,
  Bool-cases, Option-cases, arith, All, ◌≢◌,
}
use lagos.Text.{Text, codes, is_empty, strip_prefix, trim}
use lagos.Text.Splitting.{Lacks}
use lagos.Text.Cutting.{split_once-append, rsplit_once-append, split_once_text-append}
use lagos.RateLimit.Urls.{
  schemes, with_scheme, normalize_by, normalize_url, is_unreadable, mask_credentials, mask_parts,
  redact_authority, redact_rest, redact_parts, redact_url,
}

-- `<scheme>://<username>:<password>@<host>`
abbrev pub url_of : Text → Text → Text → Text → Text
url_of scheme username password host =
    scheme ++ (codes "://" ++ ((username ++ b':' ∷ password) ++ b'@' ∷ host))

-- What is shown of it.
abbrev pub shown : Text → Text → Text → Text
shown scheme username host =
    scheme
    ++ (codes "://"
        ++ (if is_unreadable username
            then codes "***@" ++ host
            else username ++ (codes ":***@" ++ host)))

mask_credentials-shown :
    (username password host : Text)
    → mask_credentials (some (username, password)) host
      ≡ some (
          if is_unreadable username
          then codes "***@" ++ host
          else username ++ (codes ":***@" ++ host))
unfolding mask_credentials
mask_credentials-shown username password host = elim (Bool-cases (is_unreadable username)) [
  | inl e ↦ rw e refl
  | inr e ↦ rw e refl
]

redact_authority-shown :
    (username password host : Text)
    → Lacks b':' username
    → Lacks b'@' host
    → redact_authority ((username ++ b':' ∷ password) ++ b'@' ∷ host)
      ≡ some (
          if is_unreadable username
          then codes "***@" ++ host
          else username ++ (codes ":***@" ++ host))
unfolding redact_authority mask_parts
redact_authority-shown username password host u h =
    rw
      (
        rsplit_once-append b'@' (username ++ b':' ∷ password) host h,
        split_once-append b':' username password u,
      )
      (mask_credentials-shown username password host)

-- Whatever characters a password is made of, slashes, colons and at signs among them, the redacted
-- URL holds nothing of it: it is made of the scheme, of the user name, unless that is ambiguous, and
-- of the host.
pub redact_url-shown :
    (scheme username password host : Text)
    → Lacks b':' scheme
    → Lacks b':' username
    → Lacks b'@' host
    → redact_url (url_of scheme username password host) ≡ shown scheme username host
unfolding redact_url redact_parts redact_rest
redact_url-shown scheme username password host s u h =
    rw
      (
        split_once_text-append b':' (b'/' ∷ (b'/' ∷ [])) scheme
            ((username ++ b':' ∷ password) ++ b'@' ∷ host) s,
        redact_authority-shown username password host u h,
      )
      refl

-- A scheme that every client of the protocol reads, and a host or more behind it.
abbrev pub IsCanonicalUrl : Text → Type 0
IsCanonicalUrl url =
    (rest : Text) × (rest ≢ [])
    × ((url ≡ codes "redis://" ++ rest) ⊎ (url ≡ codes "rediss://" ++ rest))

abbrev IsTable : List (Text × Text) → Type 0
IsTable table = All (λ p. (p.1 ≡ codes "redis://") ⊎ (p.1 ≡ codes "rediss://")) table

is_empty-ne : (t : Text) → is_empty t ≡ false → t ≢ []
is_empty-ne [] h e = cc
is_empty-ne (x ∷ xs) h e = cc

with_scheme-IsCanonicalUrl :
    (alias canonical rest url : Text)
    → (canonical ≡ codes "redis://") ⊎ (canonical ≡ codes "rediss://")
    → with_scheme alias canonical rest ≡ ok url
    → IsCanonicalUrl url
unfolding with_scheme
with_scheme-IsCanonicalUrl alias canonical rest url c h = elim (Bool-cases (is_empty rest)) [
  | inl e ↦ absurd (ground arith)
  | inr e ↦
      let made : (canonical ++ rest) ≡ url = ground arith in
      (
        rest,
        is_empty-ne rest e,
        elim c [
          | inl plain ↦ inl (sym made ∙ ap (λ (k : Text). k ++ rest) plain)
          | inr tls ↦ inr (sym made ∙ ap (λ (k : Text). k ++ rest) tls)
        ],
      )
]

normalize_by-IsCanonicalUrl :
    (table : List (Text × Text)) (trimmed url : Text)
    → IsTable table
    → normalize_by table trimmed ≡ ok url
    → IsCanonicalUrl url
unfolding normalize_by
normalize_by-IsCanonicalUrl [] trimmed url t h = absurd (cc)
normalize_by-IsCanonicalUrl ((alias, canonical) ∷ more) trimmed url (c, t) h =
    elim (Option-cases (strip_prefix trimmed alias)) [
      | inl e ↦ normalize_by-IsCanonicalUrl more trimmed url t (rw (e, normalize_by) at h)
      | inr (rest, e) ↦
          with_scheme-IsCanonicalUrl alias canonical rest url c (rw (e, normalize_by) at h)
    ]

-- Whichever alias is configured, the client gets a URL whose scheme it reads, with something behind
-- the scheme.
pub normalize_url-IsCanonicalUrl :
    (raw url : Text) → normalize_url raw ≡ ok url → IsCanonicalUrl url
unfolding normalize_url
normalize_url-IsCanonicalUrl raw url h =
    normalize_by-IsCanonicalUrl schemes (trim raw) url
      (
        inl refl,
        (inr refl, (inl refl, (inr refl, (inl refl, (inr refl, (inl refl, (inr refl, tt))))))),
      )
      h
