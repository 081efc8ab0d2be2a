-- ===== src/Codes/Tests.antt =====
-- A code that is stored and used, and the theorem at it.
use arsivinyo_memegy_backend.Base.{◌≡◌, ◌≢◌, refl, true, List, [], ◌∷◌, none, some, ok, arith}
use arsivinyo_memegy_backend.Codes.{
  OtcTokenData, signup_required, State, World, store_otc, consume_otc,
}
use arsivinyo_memegy_backend.Codes.Used.{Step, stores, finishes, after_steps, store_otc-consume_otc}

abbrev tokens : OtcTokenData
tokens = signup_required (record {
  signup_ticket = "ticket";
  suggested_username = "cat";
  required_terms_version = "1";
  terms_url = none;
  requires_age_confirmation = true;
})

abbrev world : World
world = record {
  now = 100;
  fails = λ call. none;
  to_json = λ t. ok "json";
  from_json = λ s. ok tokens;
}

abbrev later : World
later = record world { now = 150 }

abbrev start : State
start = record { entries = λ key. none }

abbrev others : List Step
others = finishes world "b" (ok none) ∷ stores world "c" tokens ∷ []

-- The end of another use of the code, whose GET was answered with the text.
abbrev rival : List Step
rival = finishes later "a" (ok (some "json")) ∷ []

abbrev stored_state : State
stored_state = (store_otc world "a" tokens start).1

code_stored : store_otc world "a" tokens start ≡ (ok tt, stored_state)
unfolding store_otc
code_stored = refl

-- A second request that comes from its GET to its end between the GET and the DEL of the first: both are
-- given the data.
abbrev second : State → State
second s = (consume_otc later "a" (λ x. x) s).1

both_given :
    ((consume_otc later "a" (λ x. x) stored_state).0 ≡ ok (some tokens))
    × ((consume_otc later "a" second stored_state).0 ≡ ok (some tokens))
unfolding consume_otc store_otc
both_given = (refl, refl)

store_otc-consume_otc_example :
    ((consume_otc later "a" (after_steps rival) (after_steps others stored_state)).0
      ≡ ok (some tokens))
    × ((consume_otc world "a" (after_steps []) (
          after_steps others
            (consume_otc later "a" (after_steps rival) (after_steps others stored_state)).1)).0
        ≢ ok (some tokens))
store_otc-consume_otc_example =
    store_otc-consume_otc world later world "a" "json" tokens tokens others rival others [] start
      stored_state code_stored refl refl (λ call. refl) (omega arith) (refl, (refl, tt))
      (tt, (refl, tt))
