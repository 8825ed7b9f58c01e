-- ===== src/RateLimit/Urls.antt =====
-- URLs of the shared store, crates/lagos-core/src/ratelimit/shared.rs. An error is what the message
-- names: an alias that stands alone, or the scheme, if there is one.
use lagos.Prelude.{
  if◌then◌else◌, Bool, ◌||◌, Option, none, some, List, [], ◌∷◌, ◌++◌, Result, ok, err,
}
use lagos.Text.{
  Text, codes, is_empty, contains, trim, strip_prefix, split_once, split_once_text, rsplit_once,
}

pub data UrlError : Type 0 where
  no_host : Text → UrlError
  unknown_scheme : Option Text → UrlError

abbrev pub schemes : List (Text × Text)
schemes =
    (codes "recached://", codes "redis://")
    ∷ ((codes "recacheds://", codes "rediss://")
        ∷ ((codes "valkey://", codes "redis://")
            ∷ ((codes "valkeys://", codes "rediss://")
                ∷ ((codes "resp://", codes "redis://")
                    ∷ ((codes "resps://", codes "rediss://")
                        ∷ ((codes "redis://", codes "redis://")
                            ∷ ((codes "rediss://", codes "rediss://") ∷ [])))))))

unfoldable pub first_part : Option (Text × Text) → Option Text
first_part none = none
first_part (some p) = some p.0

unfoldable pub with_scheme : Text → Text → Text → Result Text UrlError
with_scheme alias canonical rest =
    if is_empty rest then err (no_host alias) else ok (canonical ++ rest)

-- The loop over `SCHEMES`, and what follows it.
unfoldable pub normalize_by : List (Text × Text) → Text → Result Text UrlError
unfolding strip_prefix split_once_text first_part with_scheme
normalize_by [] trimmed = err (unknown_scheme (first_part (split_once_text trimmed (codes "://"))))
normalize_by ((alias, canonical) ∷ more) trimmed = elim (strip_prefix trimmed alias) [
  | none ↦ normalize_by more trimmed
  | some rest ↦ with_scheme alias canonical rest
]

unfoldable pub normalize_url : Text → Result Text UrlError
unfolding normalize_by trim
normalize_url raw = normalize_by schemes (trim raw)

unfoldable pub is_unreadable : Text → Bool
is_unreadable username = contains b'/' username || contains b'?' username || contains b'#' username

-- The end of `redact_authority`, with the credentials split at the first colon.
unfoldable pub mask_credentials : Option (Text × Text) → Text → Option Text
unfolding is_unreadable
mask_credentials none host = none
mask_credentials (some (username, password)) host =
    if is_unreadable username
    then some (codes "***@" ++ host)
    else some (username ++ (codes ":***@" ++ host))

-- Split at the last `@`.
unfoldable pub mask_parts : Option (Text × Text) → Option Text
unfolding split_once mask_credentials
mask_parts none = none
mask_parts (some (credentials, host)) = mask_credentials (split_once b':' credentials) host

unfoldable pub redact_authority : Text → Option Text
unfolding rsplit_once mask_parts
redact_authority rest = mask_parts (rsplit_once b'@' rest)

unfoldable pub unwrap_or : Option Text → Text → Text
unwrap_or none default = default
unwrap_or (some t) default = t

unfoldable pub redact_rest : Text → Text → Option Text → Text
redact_rest url scheme none = url
redact_rest url scheme (some masked) = scheme ++ (codes "://" ++ masked)

unfoldable pub redact_parts : Text → Option (Text × Text) → Text
unfolding redact_authority unwrap_or redact_rest
redact_parts url none = unwrap_or (redact_authority url) url
redact_parts url (some (scheme, rest)) = redact_rest url scheme (redact_authority rest)

unfoldable pub redact_url : Text → Text
unfolding split_once_text redact_parts
redact_url url = redact_parts url (split_once_text url (codes "://"))
