-- ===== src/Network/Caddy/Names.antt =====
-- The paths under which Caddy serves the functions, back to the functions' names.
use ukfaas.Prelude.{
  ℕ, ◌≡◌, ◌≢◌, refl, sym, ap, ◌∙◌, true, false, Option, some, [], ◌∷◌, ◌++◌, arith,
}
use ukfaas.Prelude.Lists.{eqb, All}
use ukfaas.Prelude.Text.{Text}
use ukfaas.Network.Caddy.{
  is_word, take_word, strip_prefix, function_prefix, or_later, word_after, get_service_name,
  name_or, url_to_service, has_slash, service_to_url,
}

word_no_slash : (c : ℕ) → is_word c ≡ true → eqb c 47 ≡ false
unfolding is_word
word_no_slash c h = ground arith

take_word-All : (s : Text) → All (λ c. is_word c ≡ true) s → take_word s ≡ s
unfolding take_word
take_word-All [] all = refl
take_word-All (c ∷ s) all = ground (arith, take_word-All s all.1)

has_slash-All : (s : Text) → All (λ c. is_word c ≡ true) s → has_slash s ≡ false
unfolding has_slash
has_slash-All [] all = refl
has_slash-All (c ∷ s) all = ground (arith, has_slash-All s all.1, word_no_slash c)

or_later-some : (word : Text) (later : Option Text) → word ≢ [] → or_later word later ≡ some word
unfolding or_later
or_later-some [] later h = absurd (h refl)
or_later-some (c ∷ word) later h = refl

get_service_name-prefix :
    (service : Text)
    → take_word service ≢ []
    → get_service_name (function_prefix ++ service) ≡ some (take_word service)
unfolding get_service_name strip_prefix word_after
get_service_name-prefix service h = or_later-some (take_word service) _ h

service_to_url-plain :
    (service : Text)
    → has_slash service ≡ false
    → service_to_url service ≡ function_prefix ++ service
unfolding service_to_url
service_to_url-plain service h = rw h refl

-- A name of word characters comes back from the path that is made of it.
pub url_to_service-service_to_url :
    (service : Text)
    → service ≢ []
    → All (λ c. is_word c ≡ true) service
    → url_to_service (service_to_url service) ≡ service
unfolding url_to_service name_or
url_to_service-service_to_url service h all =
    let same = take_word-All service all in
    ap url_to_service (service_to_url-plain service (has_slash-All service all))
    ∙ ap (name_or (function_prefix ++ service))
        (get_service_name-prefix service (λ e. h (sym same ∙ e)))
    ∙ same
