-- ===== src/Headers/Plan.antt =====
-- What a header plan does to a request.
use mathlib.Core.List.{append-nil}
use lagos.Prelude.{
  ap, ◌≡◌, refl, Bool, true, false, if◌then◌else◌, List, [], ◌∷◌, ◌++◌, arith, Bool-cases, inl, inr,
}
use lagos.Text.{Text, text_eq, text_eq_iff, eq_of_text_eq, to_ascii_lowercase}
use lagos.Headers.{
  HeaderPlan, retain_others, set_header, strip, remove_header, apply_removals, apply_additions,
  apply_plan,
}

-- The values of a header, in order.
unfoldable pub values : Text → List (Text × Text) → List Text
values name [] = []
values name ((n, v) ∷ rest) =
    let more = values name rest in if text_eq n name then v ∷ more else more

pub values-append :
    (name : Text) (xs ys : List (Text × Text))
    → values name (xs ++ ys) ≡ values name xs ++ values name ys
unfolding values
values-append name [] ys = refl
values-append name ((n, v) ∷ xs) ys = ground (arith, values-append name xs ys)

pub values-retain_others :
    (other name : Text) (xs : List (Text × Text))
    → values name (retain_others other xs) ≡ (if text_eq other name then [] else values name xs)
unfolding values retain_others
values-retain_others other name [] = ground arith
values-retain_others other name ((n, v) ∷ xs) = ground (
  arith,
  values-retain_others other name xs,
  text_eq_iff n other,
  text_eq_iff n name,
  text_eq_iff other name,
)

unfoldable pub has : Text → List Text → Bool
has name [] = false
has name (n ∷ ns) = let rest = has name ns in if text_eq n name then true else rest

values-apply_removals :
    (name : Text) (names : List Text) (headers : List (Text × Text))
    → values name (apply_removals names headers)
      ≡ (if has name names then [] else values name headers)
unfolding apply_removals remove_header has
values-apply_removals name [] headers = refl
values-apply_removals name (n ∷ names) headers = ground (
  arith,
  values-apply_removals name names (retain_others n headers),
  values-retain_others n name headers,
)

-- The last value that a list of additions gives a header, if it gives one.
unfoldable pub last_value : Text → List (Text × Text) → List Text → List Text
last_value name [] old = old
last_value name ((n, v) ∷ more) old = last_value name more (if text_eq n name then v ∷ [] else old)

values-replaced :
    (name n v : Text) (headers : List (Text × Text))
    → values name (retain_others n headers ++ (n, v) ∷ [])
      ≡ (if text_eq n name then v ∷ [] else values name headers)
unfolding values
values-replaced name n v headers =
    rw (values-append name (retain_others n headers) ((n, v) ∷ []))
      (ground (arith, values-retain_others n name headers, append-nil (values name headers)))

values-apply_additions :
    (name : Text) (more headers : List (Text × Text))
    → values name (apply_additions more headers) ≡ last_value name more (values name headers)
unfolding apply_additions last_value
values-apply_additions name [] headers = refl
values-apply_additions name ((n, v) ∷ more) headers =
    rw (values-apply_additions name more (retain_others n headers ++ (n, v) ∷ []))
      (ap (last_value name more) (values-replaced name n v headers))

-- The values of a header after a plan: those of the additions if there are any, else those that the
-- request had, unless the header is on the list of removals.
pub values-apply_plan :
    (k : Text) (plan : HeaderPlan) (headers : List (Text × Text))
    → values k (apply_plan plan headers)
      ≡ last_value k plan.set (if has k plan.remove then [] else values k headers)
unfolding apply_plan
values-apply_plan k plan headers =
    rw (values-apply_additions k plan.set (apply_removals plan.remove headers))
      (ap (last_value k plan.set) (values-apply_removals k plan.remove headers))

last_value-append :
    (k n v : Text) (set : List (Text × Text)) (old : List Text)
    → last_value k (set ++ (n, v) ∷ []) old ≡ (if text_eq n k then v ∷ [] else last_value k set old)
unfolding last_value
last_value-append k n v [] old = refl
last_value-append k n v ((m, w) ∷ set) old = last_value-append k n v set _

last_value-retain_others :
    (other k : Text) (set : List (Text × Text)) (old : List Text)
    → text_eq other k ≡ false
    → last_value k (retain_others other set) old ≡ last_value k set old
unfolding last_value retain_others
last_value-retain_others other k [] old h = refl
last_value-retain_others other k ((n, v) ∷ set) old h = elim (Bool-cases (text_eq n other)) [
  | inl same ↦
      let differs : text_eq n k ≡ false = rw (eq_of_text_eq n other same) h in
      rw (same, differs) (last_value-retain_others other k set old h)
  | inr kept ↦
      rw kept (last_value-retain_others other k set (if text_eq n k then v ∷ [] else old) h)
]

-- Whatever the client sent and whatever the plan held before, a header that the plan sets reaches
-- the upstream with exactly that value, once; every other header is as it was without.
pub apply-set_header :
    (k name value : Text) (plan : HeaderPlan) (headers : List (Text × Text))
    → values k (apply_plan (set_header plan name value) headers) ≡ (
        if text_eq (to_ascii_lowercase name) k
        then value ∷ []
        else values k (apply_plan plan headers))
unfolding set_header has
apply-set_header k name value plan headers =
    let low = to_ascii_lowercase name in
    let rest = retain_others low plan.set in
    let old = if has k (low ∷ plan.remove) then [] else values k headers in
    ground (
      arith,
      values-apply_plan k (set_header plan name value) headers,
      values-apply_plan k plan headers,
      last_value-append k low value rest old,
      last_value-retain_others low k plan.set old,
    )

-- A header that the plan strips reaches the upstream only with the value that the plan itself
-- gives it, if any; every other header is as it was without.
pub apply-strip :
    (k name : Text) (plan : HeaderPlan) (headers : List (Text × Text))
    → values k (apply_plan (strip plan name) headers) ≡ (
        if text_eq (to_ascii_lowercase name) k
        then last_value k plan.set []
        else values k (apply_plan plan headers))
unfolding strip has
apply-strip k name plan headers =
    ground (arith, values-apply_plan k (strip plan name) headers, values-apply_plan k plan headers)
