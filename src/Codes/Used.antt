-- ===== src/Codes/Used.antt =====
-- A code from its storage to its use, with other requests between (src/api/src/cache/otc_cache.rs).
use arsivinyo_memegy_backend.Base.{
  ℕ, ◌+◌, ◌<◌, ◌≡◌, ◌≢◌, Bool-cases, refl, sym, ap, ◌∙◌, ◌⊎◌, inl, inr, String, false, List, [],
  ◌∷◌, Option, none, some, Result, ok, err, All, str_eq, str_eq_refl, leb, Option-cases, arith,
}
use arsivinyo_memegy_backend.Codes.{
  OtcTokenData, State, Call, connect, set_entry, get_entry, delete_entry, World, otc_key, put_entry,
  set_json, store_otc, live, some_tokens, delete_and_read, finish_otc, get_otc, consume_otc,
}

-- What a request does to Redis in one go: it stores a code, or it comes to the end of the use of a code,
-- whose GET had the answer given, at whatever time. GET itself changes nothing.
pub data Step : Type 0 where
  stores : World → String → OtcTokenData → Step
  finishes : World → String → Result String (Option String) → Step

abbrev pub code_of : Step → String
code_of (stores w code t) = code
code_of (finishes w code answer) = code

abbrev pub step : Step → State → State
step (stores w code t) s = (store_otc w code t s).1
step (finishes w code answer) s = (finish_otc w code answer s).1

abbrev pub after_steps : List Step → State → State
after_steps [] s = s
after_steps (o ∷ os) s = after_steps os (step o s)

-- The step does not store the code.
abbrev pub IsNoStore : String → Step → Type 0
IsNoStore code (stores w other t) = str_eq (otc_key code) (otc_key other) ≡ false
IsNoStore code (finishes w other answer) = Unit

module _ (key : String) (w : World) (code : String) (s : State)
    (other : str_eq key (otc_key code) ≡ false) where
  put_entry-other :
      (e : Option (String × ℕ)) → (put_entry (otc_key code) e s).entries key ≡ s.entries key
  put_entry-other e = rw other refl

  set_json-other : (r : Result String String) → (set_json w code s r).1.entries key ≡ s.entries key
  set_json-other (err e) = refl
  set_json-other (ok json) = elim (Option-cases (w.fails connect)) [
    | inr (e, fails) ↦ rw (fails, set_json) refl
    | inl works ↦ elim (Option-cases (w.fails set_entry)) [
      | inr (e, fails) ↦ rw (works, set_json) (rw fails refl)
      | inl sets ↦ rw (works, set_json) (rw sets (put_entry-other (some (json, w.now + 60))))
    ]
  ]

  delete_and_read-other :
      (o : Option String) → (delete_and_read w code s o).1.entries key ≡ s.entries key
  delete_and_read-other none = refl
  delete_and_read-other (some json) = elim (Option-cases (w.fails delete_entry)) [
    | inr (e, fails) ↦ rw (fails, delete_and_read) refl
    | inl works ↦ rw (works, delete_and_read) (put_entry-other none)
  ]

  finish_otc-other :
      (answer : Result String (Option String))
      → (finish_otc w code answer s).1.entries key ≡ s.entries key
  finish_otc-other (err e) = refl
  finish_otc-other (ok o) = delete_and_read-other o

entries-step :
    (key : String) (o : Step) (s : State)
    → str_eq key (otc_key (code_of o)) ≡ false
    → (step o s).entries key ≡ s.entries key
unfolding store_otc
entries-step key (stores w code t) s other = set_json-other key w code s other (w.to_json t)
entries-step key (finishes w code answer) s other = finish_otc-other key w code s other answer

entries-after_steps :
    (key : String) (os : List Step) (s : State)
    → All (λ o. str_eq key (otc_key (code_of o)) ≡ false) os
    → (after_steps os s).entries key ≡ s.entries key
entries-after_steps key [] s others = refl
entries-after_steps key (o ∷ os) s others =
    entries-after_steps key os (step o s) others.1 ∙ entries-step key o s others.0

entry_put :
    (key : String) (e : Option (String × ℕ)) (s : State) → (put_entry key e s).entries key ≡ e
entry_put key e s = rw (str_eq_refl key) refl

-- The use of a code deletes its entry or leaves all as it is.
finish_otc-gone :
    (key : String) (w : World) (code : String) (answer : Result String (Option String)) (s : State)
    → s.entries key ≡ none
    → (finish_otc w code answer s).1.entries key ≡ none
finish_otc-gone key w code (err e) s gone = gone
finish_otc-gone key w code (ok none) s gone = gone
finish_otc-gone key w code (ok (some json)) s gone = elim (Option-cases (w.fails delete_entry)) [
  | inr (e, fails) ↦ rw (fails, delete_and_read) gone
  | inl works ↦
      rw (works, delete_and_read)
        (elim (Bool-cases (str_eq key (otc_key code))) [
          | inl same ↦ rw same refl
          | inr other ↦ rw other gone
        ])
]

step-gone :
    (code : String) (o : Step) (s : State)
    → IsNoStore code o
    → s.entries (otc_key code) ≡ none
    → (step o s).entries (otc_key code) ≡ none
step-gone code (stores w other t) s unlike gone =
    entries-step (otc_key code) (stores w other t) s unlike ∙ gone
step-gone code (finishes w other answer) s _ gone =
    finish_otc-gone (otc_key code) w other answer s gone

after_steps-gone :
    (code : String) (os : List Step) (s : State)
    → All (IsNoStore code) os
    → s.entries (otc_key code) ≡ none
    → (after_steps os s).entries (otc_key code) ≡ none
after_steps-gone code [] s none_stores gone = gone
after_steps-gone code (o ∷ os) s none_stores gone =
    after_steps-gone code os (step o s) none_stores.1 (step-gone code o s none_stores.0 gone)

module _ (w : World) (code : String) where
  get_otc-gone :
      (s : State)
      → s.entries (otc_key code) ≡ none
      → (get_otc w code s ≡ ok none) ⊎ ((e : String) × (get_otc w code s ≡ err e))
  unfolding get_otc
  get_otc-gone s gone = elim (Option-cases (w.fails connect)) [
    | inr (e, fails) ↦ inr (e, rw (fails, get_otc) refl)
    | inl works ↦ elim (Option-cases (w.fails get_entry)) [
      | inr (e, fails) ↦ inr (e, rw (works, get_otc) (rw fails refl))
      | inl gets ↦ inl (rw (works, get_otc) (rw gets (ap (λ x. ok (live w.now x)) gone)))
    ]
  ]

  get_otc-found :
      (s : State) (json : String) (expires : ℕ)
      → ((c : Call) → w.fails c ≡ none)
      → s.entries (otc_key code) ≡ some (json, expires)
      → w.now < expires
      → get_otc w code s ≡ ok (some json)
  unfolding get_otc
  get_otc-found s json expires works found early =
      let late : leb expires w.now ≡ false = ground (arith, early) in
      rw (works connect, get_otc)
        (rw (works get_entry) (ap (λ x. ok (live w.now x)) found ∙ rw (late, live) refl))

  -- A request whose GET finds no entry gives no data, whatever happens before its end.
  consume_otc-gone :
      (between : State → State) (s : State) (t : OtcTokenData)
      → s.entries (otc_key code) ≡ none
      → (consume_otc w code between s).0 ≢ ok (some t)
  unfolding consume_otc
  consume_otc-gone between s t gone e = elim (get_otc-gone s gone) [
    | inl nothing ↦
        let clash : ok none ≡ ok (some t) =
          ap (λ r. (finish_otc w code r (between s)).0) (sym nothing) ∙ e in
        cc clash
    | inr (x, fails) ↦
        let clash : err x ≡ ok (some t) =
          ap (λ r. (finish_otc w code r (between s)).0) (sym fails) ∙ e in
        cc clash
  ]

  -- A request whose GET finds an entry in time deletes the entry that is there at its end.
  consume_otc-found :
      (between : State → State) (s : State) (json : String) (expires : ℕ)
      → ((c : Call) → w.fails c ≡ none)
      → s.entries (otc_key code) ≡ some (json, expires)
      → w.now < expires
      → consume_otc w code between s
        ≡ (some_tokens (w.from_json json), put_entry (otc_key code) none (between s))
  unfolding consume_otc
  consume_otc-found between s json expires works found early =
      ap (λ r. finish_otc w code r (between s)) (get_otc-found s json expires works found early)
      ∙ rw (works delete_entry, delete_and_read) refl

stored-entry :
    (w : World) (code json : String) (s s' : State)
    → set_json w code s (ok json) ≡ (ok tt, s')
    → s'.entries (otc_key code) ≡ some (json, w.now + 60)
stored-entry w code json s s' e = elim (Option-cases (w.fails connect)) [
  | inr (x, fails) ↦
      let end : set_json w code s (ok json) ≡ (err x, s) = rw (fails, set_json) refl in
      let clash : err x ≡ ok tt = ap (λ r. r.0) (sym end ∙ e) in cc clash
  | inl works ↦ elim (Option-cases (w.fails set_entry)) [
    | inr (x, fails) ↦
        let end : set_json w code s (ok json) ≡ (err x, s) = rw (works, set_json) (rw fails refl) in
        let clash : err x ≡ ok tt = ap (λ r. r.0) (sym end ∙ e) in cc clash
    | inl sets ↦
        let end : set_json w code s (ok json)
            ≡ (ok tt, put_entry (otc_key code) (some (json, w.now + 60)) s) =
          rw (works, set_json) (rw sets refl) in
        ap (λ r. r.1.entries (otc_key code)) (sym e ∙ end) ∙ entry_put (otc_key code) _ s
  ]
]

-- A code is stored, and a request uses it with a GET within a minute, if no call of Redis fails for it and the
-- library for JSON reads what it wrote. Before that GET, `os` acts on other codes only. Between the GET and
-- the DEL of the request, `between` acts in any way, on the code too: another use of it may come to
-- its end there. The request gives the data that was stored. After its DEL, through any steps `later` that do not
-- store the code anew, no request that does its GET then gives data, whatever happens before its end.
pub store_otc-consume_otc :
    (w w' w'' : World) (code json : String) (t t' : OtcTokenData)
    (os between later between' : List Step) (s s' : State)
    → store_otc w code t s ≡ (ok tt, s')
    → w.to_json t ≡ ok json
    → w'.from_json json ≡ ok t
    → ((c : Call) → w'.fails c ≡ none)
    → w'.now < w.now + 60
    → All (λ o. str_eq (otc_key code) (otc_key (code_of o)) ≡ false) os
    → All (IsNoStore code) later
    → ((consume_otc w' code (after_steps between) (after_steps os s')).0 ≡ ok (some t))
      × ((consume_otc w'' code
            (after_steps between')
            (after_steps later (consume_otc w' code (after_steps between) (after_steps os s')).1)).0
          ≢ ok (some t'))
unfolding store_otc
store_otc-consume_otc w w' w'' code json t t' os between later between' s s' stored writes reads
      works early others no_store =
    let kept : (after_steps os s').entries (otc_key code) ≡ some (json, w.now + 60) =
      entries-after_steps (otc_key code) os s' others
      ∙ stored-entry w code json s s' (ap (set_json w code s) (sym writes) ∙ stored) in
    let used =
      consume_otc-found w' code (after_steps between) (after_steps os s') json (w.now + 60) works
        kept early in
    (
      ap (λ r. r.0) used ∙ ap some_tokens reads,
      consume_otc-gone w'' code (after_steps between') _ t' (
          after_steps-gone code later _ no_store (
            ap (λ r. r.1.entries (otc_key code)) used
            ∙ entry_put (otc_key code) none (after_steps between (after_steps os s')))),
    )
