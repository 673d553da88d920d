-- ===== src/Reports/Filing.antt =====
-- src/reports/reports.service.ts: opening the report of a month, and reading a report.
use rac3011_api.Base.{
  ℕ, String, ◌≡◌, refl, Bool, true, false, ◌&&◌, none, some, [], ◌∷◌, ◌++◌, ◌==◌, arith, inl, inr,
  eqb, is_some, Result, ok, err, not_found, internal, conflict, already_exists, HttpError,
  Result-cases, any, any-append, Bool-cases, Option-cases, eq_iff, ◌∙◌,
}
use rac3011_api.Action.{Action, raise_if, lift, gets, pure, ◌>>=◌, ◌>>◌}
use rac3011_api.Db.{Table}
use rac3011_api.Access.Types.{ResolvedAccess}
use rac3011_api.Access.Scope.{
  ClubClient, can_access_club, assert_can_access_club, assert_can_access_club_any,
}
use rac3011_api.Reports.Service.{
  draft, ReportRow, ReportQueryRow, same_report, same_query, Env, World, find_or_throw, may, has_id,
}

-- The id of the next report, the version of the active schema if there is one, `{ activities: [] }`,
-- and `ryYearOf`.
pub record FilingEnv (S V : Type 0) : Type 0 where
  pub new_report_id : S → String
  pub active_version : Result ℕ
  pub empty_values : V
  pub ry_year_of : ℕ → ℕ

module _ {S T V : Type 0} (reports : Table S (ReportRow V) same_report)
    (queries : Table T ReportQueryRow same_query) (db : ClubClient) (env : Env T V)
    (filing : FilingEnv S V) where
  -- `{ clubId_month: { clubId, month } }`
  abbrev pub of_month : String → ℕ → ReportRow V → Bool
  of_month club_id month r = r.club_id == club_id && eqb r.month month

  abbrev pub new_report : String → ℕ → ℕ → S → ReportRow V
  new_report club_id month version s = record {
    id = filing.new_report_id s;
    club_id = club_id;
    ry_year = filing.ry_year_of month;
    month = month;
    schema_version = version;
    status = draft;
    values = filing.empty_values;
    notes = none;
    submitted_by_id = none;
    submitted_at = none;
    filed_on_time = none;
    scored_at = none;
    legacy_id = none;
  }

  -- `repo.create`, whose error for a taken key nobody catches.
  abbrev pub create_report : String → ℕ → ℕ → Action (World S T) String
  create_report club_id month version w =
      elim (reports.create (new_report club_id month version w.reports) w.reports) [
        | none ↦ (err internal, w)
        | some s ↦ (ok (filing.new_report_id w.reports), record w { reports = s })
      ]

  unfoldable pub create : ResolvedAccess → String → ℕ → Action (World S T) (ReportRow V)
  create access club_id month = do
    may reports queries db env access "reports:submit" club_id
    existing ← gets (λ w. reports.find_first (of_month club_id month) w.reports)
    raise_if (is_some existing) (conflict already_exists)
    version ← lift filing.active_version
    id ← create_report club_id month version
    find_or_throw reports queries db env id

  unfoldable pub get : ResolvedAccess → String → Action (World S T) (ReportRow V)
  get access id = do
    report ← find_or_throw reports queries db env id
    lift (
        assert_can_access_club_any db access ("reports:submit" ∷ "reports:review" ∷ [])
          report.club_id)
    pure report

  module _ (access : ResolvedAccess) (club_id : String) (month : ℕ) where
    -- What the opening of a report does, by what it returns.
    abbrev pub CreateOutcome : World S T → Result (ReportRow V) → World S T → Type 0
    CreateOutcome w (err e) w' = w' ≡ w
    CreateOutcome w (ok row) w' =
        (version : ℕ) × (filing.active_version ≡ ok version)
        × (can_access_club db access "reports:submit" club_id ≡ true)
        × (any (λ r. r.club_id == club_id && eqb r.month month) (reports.rows w.reports) ≡ false)
        × (reports.rows w'.reports
            ≡ reports.rows w.reports
              ++ record {
                id = filing.new_report_id w.reports;
                club_id = club_id;
                ry_year = filing.ry_year_of month;
                month = month;
                schema_version = version;
                status = draft;
                values = filing.empty_values;
                notes = none;
                submitted_by_id = none;
                submitted_at = none;
                filed_on_time = none;
                scored_at = none;
                legacy_id = none;
              }
                ∷ [])
        × (w' ≡ record w { reports = w'.reports })
        × (reports.find_first (λ r. r.id == filing.new_report_id w.reports) w'.reports ≡ some row)

    listed_after :
        (version : ℕ) (s s' : S)
        → reports.create (new_report club_id month version s) s ≡ some s'
        → is_some (reports.find_first (has_id reports queries db env (filing.new_report_id s)) s')
          ≡ true
    listed_after version s s' made =
        let r = new_report club_id month version s in
        let test = has_id reports queries db env (filing.new_report_id s) in
        reports.find_first_listed test s'
        ∙ (rw (reports.rows_create r s s' made) (
            ground (
              arith,
              any-append test (reports.rows s) (r ∷ []),
              eq_iff (filing.new_report_id s) (filing.new_report_id s),
            )))

    of_result :
        (w w' : World S T) (r : Result (ReportRow V) × World S T) (result : Result (ReportRow V))
        → r ≡ (result, w')
        → CreateOutcome w result w'
        → CreateOutcome w r.0 r.1
    of_result w w' r result e outcome = rw e outcome

    module _ (w : World S T) where
      create-stranger :
          can_access_club db access "reports:submit" club_id ≡ false
          → create access club_id month w ≡ (err not_found, w)
      unfolding create assert_can_access_club
      create-stranger stranger = ground arith

      module _ (granted : can_access_club db access "reports:submit" club_id ≡ true) where
        create-twice :
            is_some (reports.find_first (of_month club_id month) w.reports) ≡ true
            → create access club_id month w ≡ (err (conflict already_exists), w)
        unfolding create assert_can_access_club
        create-twice twice = ground arith

        module _
            (new : is_some (reports.find_first (of_month club_id month) w.reports) ≡ false) where
          create-schemaless :
              (e : HttpError)
              → filing.active_version ≡ err e
              → create access club_id month w ≡ (err e, w)
          unfolding create assert_can_access_club
          create-schemaless e none_active = ground arith

          create-taken :
              (version : ℕ)
              → filing.active_version ≡ ok version
              → reports.create (new_report club_id month version w.reports) w.reports ≡ none
              → create access club_id month w ≡ (err internal, w)
          unfolding create assert_can_access_club
          create-taken version active taken = ground arith

          create-made :
              (version : ℕ) (s' : S) (row : ReportRow V)
              → filing.active_version ≡ ok version
              → reports.create (new_report club_id month version w.reports) w.reports ≡ some s'
              → reports.find_first
                  (has_id reports queries db env (filing.new_report_id w.reports))
                  s'
                ≡ some row
              → create access club_id month w ≡ (ok row, record w { reports = s' })
          unfolding create assert_can_access_club
          create-made version s' row active made back = ground arith

          create-new : let (result, w') = create access club_id month w in CreateOutcome w result w'
          create-new = elim (Result-cases filing.active_version) [
            | inl (e, none_active) ↦ of_result w w _ (err e) (create-schemaless e none_active) refl
            | inr (version, active) ↦
                elim (Option-cases
                  (reports.create (new_report club_id month version w.reports) w.reports)) [
                    | inl taken ↦
                        of_result w w _ (err internal) (create-taken version active taken) refl
                    | inr (s', made) ↦
                        elim (Option-cases (
                          reports.find_first
                            (has_id reports queries db env (filing.new_report_id w.reports)) s')) [
                              | inl lost ↦
                                  absurd
                                    (ground (arith, lost, listed_after version w.reports s' made))
                              | inr (row, back) ↦
                                  of_result w (record w { reports = s' }) _ (ok row)
                                    (create-made version s' row active made back)
                                    (
                                      version,
                                      active,
                                      granted,
                                      ground (
                                        arith,
                                        new,
                                        reports.find_first_listed (of_month club_id month)
                                            w.reports,
                                      ),
                                      reports.rows_create
                                          (new_report club_id month version w.reports) w.reports s'
                                          made,
                                      refl,
                                      back,
                                    )
                            ]
                  ]
          ]

      -- A report is opened only for a club that the caller may submit for and that has none for the
      -- month, as one more row, which is a draft of that club and month under the active schema,
      -- without values or a submission, and is read back; or it throws, and nothing has changed.
      pub create-Outcome :
          let (result, w') = create access club_id month w in CreateOutcome w result w'
      create-Outcome = elim (Bool-cases (can_access_club db access "reports:submit" club_id)) [
        | inr stranger ↦ of_result w w _ (err not_found) (create-stranger stranger) refl
        | inl granted ↦
            elim (Bool-cases (is_some (reports.find_first (of_month club_id month) w.reports))) [
              | inl twice ↦
                  of_result w w _ (err (conflict already_exists)) (create-twice granted twice) refl
              | inr new ↦ create-new granted new
            ]
      ]
