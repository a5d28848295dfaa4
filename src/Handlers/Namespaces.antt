-- ===== src/Handlers/Namespaces.antt =====
-- utils.go and namespaces.go: which namespaces a request may name. What containerd says of its
-- namespaces is the parameter `Labeller`; a label map that is nil reads as empty.
pub mod Listing
use ukfaas.Prelude.{◌≡◌, Bool, true, false, ◌&&◌, ◌||◌, Option, none, some, List, [], ◌∷◌, ◌++◌}
use ukfaas.Prelude.Lists.{if◌then◌else◌}
use ukfaas.Prelude.Text.{Text, text, ◌==◌, text_eq}
use ukfaas.Prelude.Map.{Map, load}
use ukfaas.Prelude.Exec.{Outcome, ok, err, panic, blocked}

pub record Labeller : Type 0 where
  pub list : Outcome (List Text)
  pub labels : Text → Outcome (Map Text Text)

abbrev pub default_function_namespace : Text
default_function_namespace = text "openfaas-fn"

abbrev pub namespace_label : Text
namespace_label = text "openfaas"

unfoldable pub get_request_namespace : Text → Text
get_request_namespace [] = default_function_namespace
get_request_namespace (c ∷ namespace) = c ∷ namespace

is_true : Option Text → Bool
is_true none = false
is_true (some value) = value == text "true"

has_true : Outcome (Map Text Text) → Outcome Bool
unfolding is_true
has_true (ok labels) = ok (is_true (load namespace_label labels))
has_true (err e) = err e
has_true panic = panic
has_true blocked = blocked

unfoldable pub valid_namespace : Labeller → Text → Outcome Bool
unfolding has_true
valid_namespace L namespace =
    if namespace == default_function_namespace then ok true else has_true (L.labels namespace)

unfoldable pub find_namespace : Text → List Text → Bool
find_namespace target [] = false
find_namespace target (n ∷ items) =
    let found = find_namespace target items in if n == target then true else found

is_labelled : Option Text → Bool
is_labelled none = false
is_labelled (some value) = true

with_default : List Text → List Text
with_default found =
    if find_namespace default_function_namespace found
    then found
    else found ++ (default_function_namespace ∷ [])

-- One round of the range, unless the labels cannot be read.
visit : Text → Outcome (Map Text Text) → List Text → List Text
unfolding is_labelled with_default
visit namespace (ok labels) found =
    with_default
      (if is_labelled (load namespace_label labels) then found ++ (namespace ∷ []) else found)
visit namespace _ found = found

collect : Labeller → List Text → List Text → List Text
unfolding visit
collect L [] found = found
collect L (n ∷ namespaces) found = collect L namespaces (visit n (L.labels n) found)

unfoldable pub list_namespaces : Labeller → List Text
unfolding collect
list_namespaces L = elim L.list [
  | ok namespaces ↦ collect L namespaces []
  | _ ↦ default_function_namespace ∷ []
]
