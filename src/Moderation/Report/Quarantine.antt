-- ===== src/Moderation/Report/Quarantine.antt =====
-- When a report quarantines its video.
use arsivinyo_memegy_backend.Base.{
  ℕ, ◌≤◌, ◌≡◌, refl, subst, ◌⊎◌, inl, inr, String, Bool, true, false, not, List, Option, none, some,
  Result, ok, err, Bool-cases, leb, leb→le, str_eq, is_some, arith,
}
use arsivinyo_memegy_backend.Video.{Video}
use arsivinyo_memegy_backend.Moderation.Reasons.{is_immediate_auto_quarantine, has_severe_reason}
use arsivinyo_memegy_backend.Moderation.Store.{
  Holds, Holds-bind, begin, find_video, find_report, write_report, mark_report, commit, AbuseReport,
  Tables, State, World, ApiError, not_found, call, guard, or_not_found,
}
use arsivinyo_memegy_backend.Moderation.Action.{
  quarantine, ModerationOutcome, apply_video_moderation_action_txn, target_state,
}
use arsivinyo_memegy_backend.Moderation.Applied.{
  IsKeyed, Applied, AppliedIfOk, apply_action-Applied,
}
use arsivinyo_memegy_backend.Moderation.Report.{
  Config, SubmitReportInput, SubmitReportOutcome, Quarantined, find_reportable, write_open_report,
  find_open_report, reporter_count, threshold, count_rule, decide_auto_rule, apply_auto_rule,
  report_in_txn, after_txn, submit_or_update_report,
}

-- The rule of the configuration: quarantine is enabled, and either a reason demands it at once, or a
-- reason is severe and enough distinct reporters have an open report in the window.
abbrev pub Demands : World → Config → SubmitReportInput → List AbuseReport → Type 0
Demands w config input reports =
    (config.auto_quarantine_enabled ≡ true)
    × ((is_immediate_auto_quarantine input.reason_codes ≡ true)
        ⊎ ((has_severe_reason input.reason_codes ≡ true)
            × (threshold config ≤ reporter_count w config input.video_id reports)))

decide_auto_rule-Demands :
    (w : World) (config : Config) (input : SubmitReportInput) (reports : List AbuseReport)
    (rule : Option String)
    → decide_auto_rule w config input reports ≡ ok rule
    → ((is_some rule ≡ true) × Demands w config input reports)
      ⊎ ((rule ≡ none) × (¬ Demands w config input reports))
unfolding decide_auto_rule count_rule
decide_auto_rule-Demands w config input reports rule h =
    elim (Bool-cases config.auto_quarantine_enabled) [
      | inr off ↦ inr (ground arith, λ d. ground arith)
      | inl on ↦ elim (Bool-cases (is_immediate_auto_quarantine input.reason_codes)) [
        | inl now ↦ inl (ground arith, (on, inl now))
        | inr wait ↦ elim (Bool-cases (has_severe_reason input.reason_codes)) [
          | inr mild ↦ inr (ground arith, λ d. ground arith)
          | inl severe ↦
              elim (Bool-cases
                (leb (threshold config) (reporter_count w config input.video_id reports))) [
                  | inl enough ↦ inl (ground arith, (on, inr (severe, leb→le _ _ enough)))
                  | inr few ↦ inr (ground arith, λ d. ground arith)
                ]
        ]
      ]
    ]

module _ (w : World) (config : Config) (input : SubmitReportInput) (t : Tables) where
  -- The reports after this one was written.
  abbrev pub written : AbuseReport × List AbuseReport
  written =
      write_open_report w input (find_open_report input.video_id input.reporter_user_id t.reports)
        t.reports

  -- The video of the report is quarantined for the report's sake.
  abbrev pub IsQuarantined : Tables → Type 0
  IsQuarantined t' =
      (v : Video) × (t'.videos input.video_id ≡ some v)
      × (v.moderation_state ≡ "QUARANTINED")
      × (v.moderation_reason_code ≡ some "AUTO_QUARANTINE")

  -- Quarantine follows the rule in both directions, and without it the videos stay as they are.
  abbrev pub Follows : Bool → Tables → Type 0
  Follows auto_quarantined t' =
      ((auto_quarantined ≡ true) × Demands w config input written.1 × IsQuarantined t')
      ⊎ ((auto_quarantined ≡ false) × (¬ Demands w config input written.1) × (t'.videos ≡ t.videos))

  abbrev Ruled : Option String → Quarantined → Type 0
  Ruled none q = q.tables.videos ≡ t.videos
  Ruled (some rule) q = IsQuarantined q.tables

  Applied-IsQuarantined :
      (source : Option ℕ) (u : Tables) (o : ModerationOutcome) (u' : Tables)
      → Applied w input.video_id quarantine
          (some "AUTO_QUARANTINE")
          "system:auto_quarantine"
          source
          u
          o
          u'
      → IsQuarantined u'
  unfolding target_state
  Applied-IsQuarantined source u o u' a = (o.video, a.stored, a.is_moderated.0, a.is_moderated.1)

  apply_auto_rule-Ruled :
      (rule : Option String) (report : AbuseReport) (reports : List AbuseReport)
      → IsKeyed t.videos
      → Holds (Ruled rule) (apply_auto_rule w input rule report (record t { reports = reports }))
  unfolding apply_auto_rule
  apply_auto_rule-Ruled none report reports keyed = refl
  apply_auto_rule-Ruled (some rule) report reports keyed =
      let u : Tables = record t { reports = reports } in
      Holds-bind (Ruled (some rule))
        (apply_video_moderation_action_txn w input.video_id quarantine (some "AUTO_QUARANTINE")
          "system:auto_quarantine" (some report.id) u)
        _
        λ m e. Holds-bind (Ruled (some rule)) (call w mark_report) _ λ _ _.
          Applied-IsQuarantined (some report.id) u m.0 m.1 (
            subst
              (AppliedIfOk w input.video_id quarantine (some "AUTO_QUARANTINE")
                "system:auto_quarantine" (some report.id) u)
              e
              (apply_action-Applied w input.video_id quarantine (some "AUTO_QUARANTINE")
                "system:auto_quarantine" (some report.id) u keyed))

  abbrev Post : SubmitReportOutcome × Quarantined → Type 0
  Post r = Follows r.0.auto_quarantined r.1.tables

  Ruled-Follows :
      (rule : Option String) (q : Quarantined)
      → decide_auto_rule w config input written.1 ≡ ok rule
      → Ruled rule q
      → Follows (is_some rule) q.tables
  Ruled-Follows none q e h = elim (decide_auto_rule-Demands w config input written.1 none e) [
    | inl yes_rule ↦ cc (yes_rule.0)
    | inr no_rule ↦ inr (refl, no_rule.1, h)
  ]
  Ruled-Follows (some rule) q e h =
      elim (decide_auto_rule-Demands w config input written.1 (some rule) e) [
        | inl yes_rule ↦ inl (refl, yes_rule.1, h)
        | inr no_rule ↦ cc (no_rule.0)
      ]

  report_in_txn-Follows : IsKeyed t.videos → Holds Post (report_in_txn w config input t)
  unfolding report_in_txn
  report_in_txn-Follows keyed = Holds-bind Post (call w begin) _ λ _ _.
      Holds-bind Post (call w find_video) _ λ _ _.
        Holds-bind Post (or_not_found (find_reportable config t input.video_id)) _ λ video _.
          Holds-bind Post
            (guard (not (str_eq video.moderation_state "REMOVED")) (not_found "Video not found")) _
            λ _ _. Holds-bind Post (call w find_report) _ λ _ _.
              Holds-bind Post (call w write_report) _ λ _ _.
                Holds-bind Post (decide_auto_rule w config input written.1) _ λ rule decided.
                  Holds-bind Post
                    (apply_auto_rule w input rule written.0 (record t { reports = written.1 })) _
                    λ q applied. Holds-bind Post (call w commit) _ λ _ _.
                      Ruled-Follows rule q decided (
                        subst (Holds (Ruled rule)) applied
                          (apply_auto_rule-Ruled rule written.0 written.1 keyed))

module _ (w : World) (config : Config) (input : SubmitReportInput) (s : State) where
  abbrev pub Submitted : Result ApiError SubmitReportOutcome × State → Type 0
  Submitted (ok o, s') = Follows w config input s.tables o.auto_quarantined s'.tables
  Submitted (err e, s') = s' ≡ s

  after_txn-Submitted :
      (r : Result ApiError (SubmitReportOutcome × Quarantined))
      → Holds (Post w config input s.tables) r
      → Submitted (after_txn s r)
  after_txn-Submitted (ok (o, q)) h = h
  after_txn-Submitted (err e) h = refl

  -- A submitted report quarantines its video exactly when the configuration demands it, seen from the
  -- reports that it was added to; otherwise the videos stay as they are. A report that fails changes
  -- nothing.
  pub submit_report-Submitted :
      IsKeyed s.tables.videos → Submitted (submit_or_update_report w config input s)
  unfolding submit_or_update_report
  submit_report-Submitted keyed =
      after_txn-Submitted (report_in_txn w config input s.tables)
        (report_in_txn-Follows w config input s.tables keyed)
