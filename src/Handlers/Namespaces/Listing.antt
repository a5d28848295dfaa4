-- ===== src/Handlers/Namespaces/Listing.antt =====
-- Which namespaces `ListNamespaces` returns.
use ukfaas.Prelude.{
  ◌≡◌, ap, ◌∙◌, Bool, true, false, ◌&&◌, ◌||◌, none, some, List, [], ◌∷◌, ◌++◌, arith,
}
use ukfaas.Prelude.Lists.{if◌then◌else◌}
use ukfaas.Prelude.Text.{Text, ◌==◌, text_eq}
use ukfaas.Prelude.Map.{Map, load}
use ukfaas.Prelude.Exec.{Outcome, ok, err, panic, blocked}
use ukfaas.Handlers.Namespaces.{
  Labeller, default_function_namespace, namespace_label, find_namespace, is_labelled, with_default,
  visit, collect, list_namespaces,
}

-- Whether a namespace carries the label, with any value, and whether its labels can be read.
abbrev pub carries : Outcome (Map Text Text) → Bool
carries (ok labels) = elim (load namespace_label labels) [ none ↦ false | some value ↦ true ]
carries _ = false

abbrev pub is_readable : Outcome (Map Text Text) → Bool
is_readable (ok labels) = true
is_readable _ = false

-- Whether `target` is one of the namespaces and carries the label; whether any can be read.
pub any_carries : Labeller → Text → List Text → Bool
any_carries L target [] = false
any_carries L target (n ∷ ns) = ((n == target) && carries (L.labels n)) || any_carries L target ns

pub any_readable : Labeller → List Text → Bool
any_readable L [] = false
any_readable L (n ∷ ns) = is_readable (L.labels n) || any_readable L ns

find_namespace-append :
    (target n : Text) (items : List Text)
    → find_namespace target (items ++ (n ∷ [])) ≡ (find_namespace target items || (n == target))
unfolding find_namespace
find_namespace-append target n [] = ground arith
find_namespace-append target n (i ∷ items) = ground (arith, find_namespace-append target n items)

find_namespace-once :
    (d target : Text) (items : List Text)
    → find_namespace target (if find_namespace d items then items else (items ++ (d ∷ [])))
      ≡ (find_namespace target items || (d == target))
find_namespace-once d target items = ground (arith, find_namespace-append target d items)

find_namespace-with_default :
    (target : Text) (items : List Text)
    → find_namespace target (with_default items)
      ≡ (find_namespace target items || (default_function_namespace == target))
unfolding with_default
find_namespace-with_default target items =
    find_namespace-once default_function_namespace target items

find_namespace-pick :
    (target n : Text) (b : Bool) (found : List Text)
    → find_namespace target (if b then (found ++ (n ∷ [])) else found)
      ≡ (find_namespace target found || ((n == target) && b))
find_namespace-pick target n b found = ground (arith, find_namespace-append target n found)

or_one : (f p d : Bool) → ((f || p) || d) ≡ (f || (p || (d && true)))
or_one f p d = ground arith

or_none : (f p d : Bool) → f ≡ (f || ((p && false) || (d && false)))
or_none f p d = ground arith

or_split :
    (f c a d r s : Bool)
    → ((f || (c || (d && r))) || (a || (d && s))) ≡ (f || ((c || a) || (d && (r || s))))
or_split f c a d r s = ground arith

find_namespace-visit :
    (target n : Text) (r : Outcome (Map Text Text)) (found : List Text)
    → find_namespace target (visit n r found) ≡ (
        find_namespace target found
        || (((n == target) && carries r)
            || ((default_function_namespace == target) && is_readable r)))
unfolding visit is_labelled
find_namespace-visit target n (ok labels) found =
    find_namespace-with_default target _
    ∙ ap (λ b. b || (default_function_namespace == target))
        (find_namespace-pick target n (is_labelled (load namespace_label labels)) found)
    ∙ or_one (find_namespace target found)
        ((n == target) && is_labelled (load namespace_label labels))
        (default_function_namespace == target)
find_namespace-visit target n (err e) found =
    or_none (find_namespace target found) (n == target) (default_function_namespace == target)
find_namespace-visit target n panic found =
    or_none (find_namespace target found) (n == target) (default_function_namespace == target)
find_namespace-visit target n blocked found =
    or_none (find_namespace target found) (n == target) (default_function_namespace == target)

find_namespace-collect :
    (L : Labeller) (target : Text) (ns found : List Text)
    → find_namespace target (collect L ns found) ≡ (
        find_namespace target found
        || (any_carries L target ns
            || ((default_function_namespace == target) && any_readable L ns)))
unfolding collect any_carries any_readable
find_namespace-collect L target [] found = ground arith
find_namespace-collect L target (n ∷ ns) found =
    find_namespace-collect L target ns (visit n (L.labels n) found)
    ∙ ap
        (λ b.
          b
          || (any_carries L target ns
              || ((default_function_namespace == target) && any_readable L ns)))
        (find_namespace-visit target n (L.labels n) found)
    ∙ or_split (find_namespace target found) ((n == target) && carries (L.labels n))
        (any_carries L target ns) (default_function_namespace == target) (is_readable (L.labels n))
        (any_readable L ns)

-- If containerd lists `ns`, `ListNamespaces` returns a namespace exactly when it is one of `ns` and
-- carries the label, whatever the label's value, or it is the default one and the labels of some
-- namespace of `ns` can be read.
pub list_namespaces_lem :
    (L : Labeller) (target : Text) (ns : List Text)
    → L.list ≡ ok ns
    → find_namespace target (list_namespaces L)
      ≡ (any_carries L target ns || ((default_function_namespace == target) && any_readable L ns))
unfolding list_namespaces find_namespace any_carries any_readable
list_namespaces_lem L target ns e = rw e (find_namespace-collect L target ns [])
