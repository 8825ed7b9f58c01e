-- ===== src/Interpolate/Tests.antt =====
-- Runs of the expansion, and the properties at concrete documents.
use lagos.Prelude.{
  suc, ◌≡◌, refl, Option, none, some, [], ◌∷◌, length, All, Result, ok, err, if◌then◌else◌, true,
  false,
}
use lagos.Text.Splitting.{Lacks-of_contains}
use lagos.Text.{Text, codes, text_eq, split}
use lagos.Interpolate.{InterpolateError, Interpolated, unset, set}
use lagos.Interpolate.Lines.{
  Inspection, interpolate, interpolate_with_fallback, inspect, inspect_with,
}
use lagos.Interpolate.Resolving.{resolve_scalar, contains_marker}
use lagos.Interpolate.Escaping.{escape_dollars, interpolate-escape_dollars}
use lagos.Interpolate.Inspecting.{shown, inspect_reveals_nothing}
use lagos.Interpolate.Newlines.{expansion_keeps_lines}
use lagos.Interpolate.Supplied.{IsBlank, IsSupplied, nothing_goes_unset}
use lagos.Interpolate.Markers.{resolve_scalar_finishes}

abbrev home : Text → Option Text
home name = if text_eq name (codes "KEY") then some (codes " s3cret ") else none

abbrev nowhere : Text → Option Text
nowhere name = none

abbrev document : Text
document = codes "a: ${KEY}\nb: ${PORT:-80} # ${C}\n"

abbrev document_without_comment : Text
document_without_comment = codes "k: $${\n"

abbrev expanded : Interpolated
expanded = record {
  text = codes "a: s3cret\nb: 80 # ${C}\n";
  referenced = codes "KEY" ∷ (codes "PORT" ∷ []);
  defaulted = codes "PORT" ∷ [];
  placeheld = [];
}

document_expands : interpolate document home ≡ ok expanded
unfolding interpolate text_eq
document_expands = refl

missing_is_fatal : interpolate document nowhere ≡ err (unset (codes "KEY") 1)
unfolding interpolate text_eq
missing_is_fatal = refl

abbrev masked_of : Option (Result Inspection InterpolateError) → Text
masked_of (some (ok i)) = i.masked
masked_of other = []

document_masked :
    masked_of (inspect 40 document home)
    ≡ codes "a: lagos-vars-placeholder-0-end\nb: lagos-vars-placeholder-1-end # ${C}\n"
unfolding inspect text_eq
document_masked = refl

expansion_keeps_lines_example : length (split b'\n' expanded.text) ≡ length (split b'\n' document)
unfolding interpolate_with_fallback interpolate
expansion_keeps_lines_example = expansion_keeps_lines document home none expanded document_expands

nothing_goes_unset_example :
    (expanded.placeheld ≡ [])
    × All (IsSupplied home expanded.defaulted) expanded.referenced
    × All (λ n. IsBlank (home n)) expanded.defaulted
nothing_goes_unset_example = nothing_goes_unset document home expanded document_expands

interpolate-escape_dollars_example :
    interpolate_with_fallback (escape_dollars document_without_comment) home none
    ≡ ok (record {
      text = document_without_comment;
      referenced = [];
      defaulted = [];
      placeheld = [];
    })
interpolate-escape_dollars_example =
    interpolate-escape_dollars document_without_comment home none
      (Lacks-of_contains b'#' document_without_comment refl)

inspect_reveals_nothing_example :
    shown (inspect 40 document home) ≡ shown (inspect 40 document nowhere)
inspect_reveals_nothing_example = inspect_reveals_nothing 40 document home nowhere

abbrev inspected : Inspection
inspected = record {
  masked = codes "x m0-end";
  references =
      record {
        name = codes "KEY";
        line = 1;
        column = 3;
        has_default = false;
        state = set;
        marker = codes "m0-end";
        selected = some (codes "s3cret");
      }
      ∷ [];
}

document_inspected : inspect_with (codes "x ${KEY}") home (codes "m") ≡ ok inspected
unfolding inspect_with text_eq
document_inspected = refl

scalar_resolved : resolve_scalar 10 inspected (codes "<m0-end>") ≡ some (some (codes "<s3cret>"))
unfolding resolve_scalar
scalar_resolved = refl

scalar_marked : contains_marker inspected (codes "<m0-end>") ≡ true
unfolding contains_marker
scalar_marked = refl

resolve_scalar_finishes_example :
    (r : Option Text) × (resolve_scalar
        (suc (length (codes "<m0-end>")))
        inspected
        (codes "<m0-end>")
      ≡ some r)
resolve_scalar_finishes_example =
    resolve_scalar_finishes (codes "x ${KEY}") home (codes "m") inspected (codes "<m0-end>")
      document_inspected
