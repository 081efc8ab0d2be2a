-- ===== src/Moderation/Reasons.antt =====
-- The reason codes of a report (src/api/src/services/abuse_report_service.rs).
use Prim.Native.Nat.{Ordering}
use Prim.Native.String.{compare as compare_text}
use arsivinyo_memegy_backend.Base.{
  ℕ, ◌+◌, ◌≤◌, ◌≡◌, refl, ap, subst, inl, inr, max, String, Bool, true, false, ◌||◌, List, [], ◌∷◌,
  any, all, length, is_empty, str_eq, ltb, if◌then◌else◌, Result, ok, err, arith, Bool-cases, All,
}

abbrev pub reason_csam : String
reason_csam = "CHILD_SEXUAL_ABUSE_MATERIAL"

abbrev pub reason_minor_sexual_exploitation : String
reason_minor_sexual_exploitation = "MINOR_SEXUAL_EXPLOITATION"

abbrev pub allowed_reason_codes : List String
allowed_reason_codes =
    "PORNOGRAPHY" ∷ reason_csam ∷ reason_minor_sexual_exploitation ∷ "RAPE_GLORIFICATION"
    ∷ "PEDOPHILIC_CONTENT" ∷ "ZOOPHILIA_OR_BESTIALITY" ∷ "NECROPHILIA" ∷ "EXPLICIT_SEXUAL_CONTENT"
    ∷ "ILLEGAL_SUBSTANCE_PROMOTION" ∷ "MALICIOUS_OR_MANIPULATIVE" ∷ "GRAPHIC_OR_DISTURBING"
    ∷ "MURDER_OR_SERIOUS_INJURY" ∷ "CORPSE_CONTENT" ∷ "NSFW_MISTAGGED" ∷ "HATE_OR_RACISM" ∷ "OTHER"
    ∷ []

abbrev pub severe_reason_codes : List String
severe_reason_codes =
    reason_csam ∷ reason_minor_sexual_exploitation ∷ "RAPE_GLORIFICATION" ∷ "PEDOPHILIC_CONTENT"
    ∷ "ZOOPHILIA_OR_BESTIALITY" ∷ "NECROPHILIA" ∷ "MURDER_OR_SERIOUS_INJURY"
    ∷ "GRAPHIC_OR_DISTURBING" ∷ "CORPSE_CONTENT" ∷ []

abbrev pub contains : List String → String → Bool
contains codes code = any (λ c. str_eq c code) codes

abbrev either : String → String → String → Bool
either a b code = str_eq code a || str_eq code b

unfoldable pub severity : String → ℕ
severity code =
    if either reason_csam reason_minor_sexual_exploitation code
    then 100
    else if either "RAPE_GLORIFICATION" "PEDOPHILIC_CONTENT" code
    then 95
    else if either "ZOOPHILIA_OR_BESTIALITY" "NECROPHILIA" code
    then 90
    else if either "MURDER_OR_SERIOUS_INJURY" "CORPSE_CONTENT" code
    then 85
    else if str_eq code "GRAPHIC_OR_DISTURBING"
    then 75
    else if either "PORNOGRAPHY" "EXPLICIT_SEXUAL_CONTENT" code
    then 70
    else if either "ILLEGAL_SUBSTANCE_PROMOTION" "MALICIOUS_OR_MANIPULATIVE" code
    then 65
    else if str_eq code "HATE_OR_RACISM"
    then 60
    else if str_eq code "NSFW_MISTAGGED"
    then 40
    else 30

-- The greatest severity, 0 of no code.
unfoldable pub severity_score_for_reasons : List String → ℕ
severity_score_for_reasons [] = 0
severity_score_for_reasons (code ∷ codes) = max (severity code) (severity_score_for_reasons codes)

unfoldable pub is_immediate_auto_quarantine : List String → Bool
is_immediate_auto_quarantine = any (either reason_csam reason_minor_sexual_exploitation)

unfoldable pub has_severe_reason : List String → Bool
has_severe_reason = any (contains severe_reason_codes)

-- Insertion into the ordered set of texts.
unfoldable pub insert : String → List String → List String
insert code [] = code ∷ []
insert code (c ∷ cs) =
    let rest = insert code cs in
    elim (compare_text code c) [
      | Ordering.lt ↦ code ∷ c ∷ cs
      | Ordering.eq ↦ c ∷ cs
      | Ordering.gt ↦ c ∷ rest
    ]

pub data ReasonError : Type 0 where
  none_given too_many empty_value : ReasonError
  unsupported : String → ReasonError

-- The loop over the codes; `clean` stands for `trim` and `to_ascii_uppercase`.
unfoldable pub collect :
    (String → String) → List String → List String → Result ReasonError (List String)
collect clean [] unique = ok unique
collect clean (raw ∷ codes) unique =
    let rest = collect clean codes (insert (clean raw) unique) in
    if str_eq (clean raw) ""
    then err empty_value
    else if contains allowed_reason_codes (clean raw)
    then rest
    else err (unsupported (clean raw))

unfoldable pub normalize_reason_codes :
    (String → String) → ℕ → List String → Result ReasonError (List String)
unfolding collect
normalize_reason_codes clean max_count codes =
    if is_empty codes
    then err none_given
    else if ltb max_count (length codes)
    then err too_many
    else collect clean codes []

abbrev pub is_allowed : String → Bool
is_allowed code = contains allowed_reason_codes code

record InRange (n : ℕ) : Type 0 where
  low : 30 ≤ n
  high : n ≤ 100

InRange-if : (b : Bool) (x y : ℕ) → InRange x → InRange y → InRange (if b then x else y)
InRange-if true x y h k = h
InRange-if false x y h k = k

severity_bounds : (code : String) → InRange (severity code)
unfolding severity
severity_bounds code = InRange-if _ 100 _ (omega arith) (
    InRange-if _ 95 _ (omega arith) (
      InRange-if _ 90 _ (omega arith) (
        InRange-if _ 85 _ (omega arith) (
          InRange-if _ 75 _ (omega arith) (
            InRange-if _ 70 _ (omega arith) (
              InRange-if _ 65 _ (omega arith) (
                InRange-if _ 60 _ (omega arith)
                  (InRange-if _ 40 30 (omega arith) (omega arith)))))))))

severity_minor :
    (code : String)
    → either reason_csam reason_minor_sexual_exploitation code ≡ true
    → severity code ≡ 100
unfolding severity
severity_minor code h = ground arith

-- The score of a report lies between 30 and 100 if it gives a reason, and is 100 whenever a reason
-- quarantines the video at once.
pub severity_score_bounds :
    (code : String) (codes : List String)
    → (30 ≤ severity_score_for_reasons (code ∷ codes))
      × (severity_score_for_reasons (code ∷ codes) ≤ 100)
      × (is_immediate_auto_quarantine (code ∷ codes) ≡ true
          → severity_score_for_reasons (code ∷ codes) ≡ 100)
unfolding severity_score_for_reasons is_immediate_auto_quarantine
severity_score_bounds code [] =
    let b = severity_bounds code in
    (omega arith, omega arith, λ h. ground (arith, severity_minor code))
severity_score_bounds code (c ∷ codes) =
    let b = severity_bounds code in
    let (low, high, all) = severity_score_bounds c codes in
    (
      omega arith,
      omega arith,
      λ h. elim (Bool-cases (either reason_csam reason_minor_sexual_exploitation code)) [
        | inl e ↦ let s = severity_minor code e in omega arith
        | inr e ↦ let s = all (ground arith) in omega arith
      ],
    )

length-insert : (code : String) (set : List String) → length (insert code set) ≤ length set + 1
unfolding insert
length-insert code [] = omega arith
length-insert code (c ∷ cs) = ground (arith, length-insert code cs)

All-insert :
    (P : String → Type 0) (code : String) (set : List String)
    → P code
    → All P set
    → All P (insert code set)
unfolding insert
All-insert P code [] h k = (h, tt)
All-insert P code (c ∷ cs) h k = go (compare_text code c) refl (All-insert P code cs h k.1)
  where
    go :
        (o : Ordering)
        → compare_text code c ≡ o
        → All P (insert code cs)
        → All P (insert code (c ∷ cs))
    go Ordering.lt e r = rw (e, insert) (h, k)
    go Ordering.eq e r = rw (e, insert) k
    go Ordering.gt e r = rw (e, insert) (k.0, r)

-- The two tests of a code, passed.
both_passed {ℓ} :
    {A : Type ℓ} (a b : Bool) (e e' : ReasonError) (r : Result ReasonError A) {v : A}
    → (if a then err e else if b then r else err e') ≡ ok v
    → (b ≡ true) × (r ≡ ok v)
both_passed true b e e' r h = cc
both_passed false true e e' r h = (refl, h)
both_passed false false e e' r h = cc

All-collect :
    (clean : String → String) (codes unique result : List String)
    → All (λ c. is_allowed c ≡ true) unique
    → collect clean codes unique ≡ ok result
    → All (λ c. is_allowed c ≡ true) result × (length result ≤ length unique + length codes)
unfolding collect
All-collect clean [] unique result h e =
    let same : unique ≡ result = cc in
    (subst (All (λ c. is_allowed c ≡ true)) same h, omega (arith, ap length same))
All-collect clean (raw ∷ codes) unique result h e =
    let (good, rest) =
      both_passed (str_eq (clean raw) "") (is_allowed (clean raw)) empty_value
        (unsupported (clean raw)) (collect clean codes (insert (clean raw) unique)) e in
    let (all, bound) =
      All-collect clean codes (insert (clean raw) unique) result
        (All-insert (λ c. is_allowed c ≡ true) (clean raw) unique good h) rest in
    (all, omega (arith, length-insert (clean raw) unique))

-- Accepted codes are all in the list of allowed codes, and there are no more of them than the report
-- gave, which are at most the configured number.
pub normalize_reason_codes-ok :
    (clean : String → String) (max_count : ℕ) (codes result : List String)
    → normalize_reason_codes clean max_count codes ≡ ok result
    → All (λ c. is_allowed c ≡ true) result
      × (length result ≤ length codes)
      × (length codes ≤ max_count)
unfolding normalize_reason_codes
normalize_reason_codes-ok clean max_count [] result e = cc
normalize_reason_codes-ok clean max_count (c ∷ codes) result e =
    let r = All-collect clean (c ∷ codes) [] result tt (ground arith) in
    (r.0, omega arith, ground arith)
