-- ===== src/Routes/Table/Upstream.antt =====
-- The path that a matched route sends upstream.
use mathlib.Core.List.{append-nil}
use lagos.Prelude.{◌≡◌, ◌⊎◌, inl, inr, ap, sym, ◌∙◌, true, some, [], ◌∷◌, ◌++◌, arith}
use lagos.Text.{Text, strip_prefix}
use lagos.Routes.Table.{RouteConfig, under_prefix, upstream_path}
use lagos.Routes.Table.Prefix.{IsUnder, under_prefix_iff, strip_prefix-append}

strip_of_IsUnder :
    (r : RouteConfig) (path : Text)
    → r.strip_prefix ≡ true
    → IsUnder path r.prefix
    → ((path ≡ r.prefix) × (upstream_path r path ≡ []))
      ⊎ (path ≡ r.prefix ++ (b'/' ∷ upstream_path r path))
unfolding upstream_path
strip_of_IsUnder r path s (inl e) =
    let whole : strip_prefix path r.prefix ≡ some [] =
      ap (λ (u : Text). strip_prefix u r.prefix) (e ∙ sym (append-nil r.prefix))
      ∙ strip_prefix-append r.prefix [] in
    inl (e, ground arith)
strip_of_IsUnder r path s (inr (rest, e)) =
    let whole : strip_prefix path r.prefix ≡ some (b'/' ∷ rest) =
      ap (λ (u : Text). strip_prefix u r.prefix) e ∙ strip_prefix-append r.prefix (b'/' ∷ rest) in
    let up : upstream_path r path ≡ rest = ground arith in inr (rw up e)

-- For a path that a stripping route matched, the part sent upstream is what follows the prefix: it
-- is empty for the bare prefix, and otherwise the path is the prefix, a slash and that part.
pub upstream_path_strips :
    (r : RouteConfig) (path : Text)
    → r.strip_prefix ≡ true
    → under_prefix path r.prefix ≡ true
    → ((path ≡ r.prefix) × (upstream_path r path ≡ []))
      ⊎ (path ≡ r.prefix ++ (b'/' ∷ upstream_path r path))
upstream_path_strips r path s u = strip_of_IsUnder r path s ((under_prefix_iff path r.prefix).0 u)
