-- ===== src/Routes/Build/Inherited.antt =====
-- Resolving the inherited policies of a route, `RouteTable::build_with` of routes/mod.rs.
use lagos.Prelude.{◌≡◌, refl, ◌∙◌, none, some, Option, List, Bool-cases, inl, inr}
use lagos.Text.{Text, is_empty, trim}
use lagos.Config.{RouteDefaults, RateLimitConfig}
use lagos.Retry.{RetryConfig}
use lagos.Routes.Table.{RouteConfig}
use lagos.Routes.Build.{
  resolve, inherit_methods, inherit_retry, inherit_rate_limit, name_route, normalized, is_built_in,
}

-- What resolving the inherited policies leaves alone.
abbrev pub Kept : RouteConfig → RouteConfig → Type 0
Kept a b =
    (a.hosts ≡ b.hosts)
    × (a.bindings ≡ b.bindings)
    × (a.auth ≡ b.auth)
    × (a.retry_policy ≡ b.retry_policy)

after : (a b c : RouteConfig) → Kept a b → Kept b c → Kept a c
after x y z (h, b, t, p) (h', b', t', p') = (h ∙ h', b ∙ b', t ∙ t', p ∙ p')

methods-Kept : (methods : Option (List Text)) (r : RouteConfig) → Kept (inherit_methods methods r) r
unfolding inherit_methods
methods-Kept none r = (refl, refl, refl, refl)
methods-Kept (some m) r = elim (Bool-cases (is_built_in r.methods_origin)) [
  | inl e ↦ rw e (refl, refl, refl, refl)
  | inr e ↦ rw e (refl, refl, refl, refl)
]

retry-Kept : (retry : Option RetryConfig) (r : RouteConfig) → Kept (inherit_retry retry r) r
unfolding inherit_retry
retry-Kept none r = (refl, refl, refl, refl)
retry-Kept (some m) r = elim (Bool-cases (is_built_in r.retry_origin)) [
  | inl e ↦ rw e (refl, refl, refl, refl)
  | inr e ↦ rw e (refl, refl, refl, refl)
]

rate_limit-Kept :
    (rate : Option RateLimitConfig) (r : RouteConfig) → Kept (inherit_rate_limit rate r) r
unfolding inherit_rate_limit
rate_limit-Kept none r = (refl, refl, refl, refl)
rate_limit-Kept (some m) r = elim (Bool-cases (is_built_in r.rate_limit_origin)) [
  | inl e ↦ rw e (refl, refl, refl, refl)
  | inr e ↦ rw e (refl, refl, refl, refl)
]

name_route-Kept : (r : RouteConfig) → Kept (name_route (normalized r)) r
unfolding name_route normalized
name_route-Kept r = elim (Bool-cases (is_empty (trim r.id))) [
  | inl e ↦ rw e (refl, refl, refl, refl)
  | inr e ↦ rw e (refl, refl, refl, refl)
]

pub resolve-Kept : (d : RouteDefaults) (r : RouteConfig) → Kept (resolve d r) r
unfolding resolve
resolve-Kept d r =
    let one = inherit_methods d.methods r in
    let two = inherit_retry d.retry one in
    let three = inherit_rate_limit d.rate_limit two in
    after (name_route (normalized three)) three r (name_route-Kept three) (
      after three two r (rate_limit-Kept d.rate_limit two)
        (after two one r (retry-Kept d.retry one) (methods-Kept d.methods r)))
