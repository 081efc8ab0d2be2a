-- ===== src/Username/Tests.antt =====
-- Usernames validated and suggested by evaluation, and the theorems at them.
use arsivinyo_memegy_backend.Base.{ℕ, ◌≡◌, refl, ◌⊎◌, ok, err, List, [], codes}
use arsivinyo_memegy_backend.Username.{
  ValidatedUsername, validate_username, suggest_username_from_google_name, reserved,
  collect_reserved_usernames, is_reserved_username_variant, text_eq,
}
use arsivinyo_memegy_backend.Username.Accepted.{IsAccepted, validate_username-ok}
use arsivinyo_memegy_backend.Username.Suggested.{suggest_username-validated}

abbrev trim : List ℕ → List ℕ
trim s = s

abbrev given : List ℕ
given = codes "zoe_42"

abbrev accepted : ValidatedUsername
accepted = record { original = given; normalized = given }

zoe_validated : validate_username trim (codes "boss") given ≡ ok accepted
unfolding validate_username collect_reserved_usernames is_reserved_username_variant text_eq
zoe_validated = refl

validate_username-ok_example : IsAccepted trim (codes "boss") given accepted
validate_username-ok_example = validate_username-ok trim (codes "boss") given accepted zoe_validated

zoe_suggested : suggest_username_from_google_name (codes "Zoe Q") ≡ codes "zoe_q"
unfolding suggest_username_from_google_name
zoe_suggested = refl

bo_suggested : suggest_username_from_google_name (codes "!Bo!") ≡ codes "bo_user"
unfolding suggest_username_from_google_name
bo_suggested = refl

suggest_username-validated_example :
    (validate_username trim [] (suggest_username_from_google_name (codes "Zoe Q"))
      ≡ ok (record {
        original = suggest_username_from_google_name (codes "Zoe Q");
        normalized = suggest_username_from_google_name (codes "Zoe Q");
      }))
    ⊎ (validate_username trim [] (suggest_username_from_google_name (codes "Zoe Q")) ≡ err reserved)
suggest_username-validated_example =
    suggest_username-validated trim [] (codes "Zoe Q") (λ s h. refl)
