-- ===== src/Reports/Status.antt =====
-- How the status of a report changes: what is submitted or scored is not edited, only what is
-- submitted is queried, and an answer submits the report.
use rac3011_api.Base.{
  String, ◌≡◌, refl, true, false, ◌&&◌, Option, none, some, ◌==◌, arith, inl, inr, Bool-cases,
  Option-cases, [], ◌∷◌, ◌++◌, map, if◌then◌else◌, truthy?, Result, ok, err, HttpError, not_found,
  internal, conflict, invalid_transition, ap, ◌∙◌,
}
use rac3011_api.Db.{Table}
use rac3011_api.Db.Updates.{find_first-update_many, is_some-find_first-update_many}
use rac3011_api.Access.Types.{ResolvedAccess}
use rac3011_api.Access.Scope.{ClubClient, can_access_club, assert_can_access_club}
use rac3011_api.Reports.Service.{
  ReportStatus, draft, scored, submitted, queried, is_submitted, ReportRow, ReportQueryRow,
  same_report, same_query, Env, World, add_query, reply_query, has_id, query_has_id, set_status,
}

is_submitted-only : (status : ReportStatus) → is_submitted status ≡ true → status ≡ submitted
is_submitted-only submitted h = refl
is_submitted-only draft h = absurd (ground arith)
is_submitted-only queried h = absurd (ground arith)
is_submitted-only scored h = absurd (ground arith)

module _ {S T V : Type 0} (reports : Table S (ReportRow V) same_report)
    (queries : Table T ReportQueryRow same_query) (db : ClubClient) (env : Env T V) where
  abbrev pub find : String → World S T → Option (ReportRow V)
  find id w = reports.find_first (λ r. r.id == id) w.reports

  abbrev stored : String → (ReportRow V → ReportRow V) → S → S
  stored id f = reports.update_many (has_id reports queries db env id) f

  -- The report that is read back after an update is an updated one.
  read_back :
      (id : String) (f : ReportRow V → ReportRow V) (s : S) (before : ReportRow V)
      → ((r : ReportRow V) → (f r).id ≡ r.id)
      → reports.find_first (has_id reports queries db env id) s ≡ some before
      → (after : ReportRow V) × (reports.find_first
            (has_id reports queries db env id)
            (stored id f s)
          ≡ some after)
        × (r : ReportRow V) × (after ≡ f r)
  read_back id f s before keeps found =
      let test = has_id reports queries db env id in
      let same : (r : ReportRow V) → test (f r) ≡ test r = λ r. ap (λ i. i == id) (keeps r) in
      elim (Option-cases (reports.find_first test (stored id f s))) [
        | inl lost ↦
            absurd
              (ground (arith, lost, found, is_some-find_first-update_many reports test f same s))
        | inr (after, there) ↦
            let (r, e) = find_first-update_many reports test f same s after there in
            (after, there, r, e)
      ]

  module _ (access : ResolvedAccess) (id : String) where
    module _ (question : String) (w : World S T) where
      -- What a question does, by what is returned.
      abbrev pub QueryOutcome : Result (ReportRow V) → World S T → Type 0
      QueryOutcome (err e) w' = w' ≡ w
      QueryOutcome (ok after) w' =
          (before : ReportRow V) × (find id w ≡ some before)
          × (before.status ≡ submitted)
          × (can_access_club db access "reports:review" before.club_id ≡ true)
          × (queries.rows w'.queries
              ≡ queries.rows w.queries
                ++ record {
                  id = env.new_id w.queries;
                  report_id = id;
                  asked_by_id = access.user_id;
                  question = question;
                  reply = none;
                  replied_by_id = none;
                  replied_at = none;
                }
                  ∷ [])
          × (reports.rows w'.reports
              ≡ map (λ r. if r.id == id then record r { status = queried } else r)
                  (reports.rows w.reports))
          × (find id w' ≡ some after)
          × (after.status ≡ queried)

      of_query :
          (w' : World S T) (r : Result (ReportRow V) × World S T) (result : Result (ReportRow V))
          → r ≡ (result, w')
          → QueryOutcome result w'
          → QueryOutcome r.0 r.1
      of_query w' r result e outcome = rw e outcome

      add_query-missing :
          find id w ≡ none
          → add_query reports queries db env access id question w ≡ (err not_found, w)
      unfolding add_query
      add_query-missing missing = ground arith

      add_query-refused :
          (before : ReportRow V)
          → find id w ≡ some before
          → (can_access_club db access "reports:review" before.club_id
              && is_submitted before.status)
            ≡ false
          → (e : HttpError) × (add_query reports queries db env access id question w ≡ (err e, w))
      unfolding add_query assert_can_access_club
      add_query-refused before found no_way =
          elim (Bool-cases (can_access_club db access "reports:review" before.club_id)) [
            | inr stranger ↦ (not_found, ground arith)
            | inl granted ↦ (conflict invalid_transition, ground arith)
          ]

      abbrev new_query : ReportQueryRow
      new_query = record {
        id = env.new_id w.queries;
        report_id = id;
        asked_by_id = access.user_id;
        question = question;
        reply = none;
        replied_by_id = none;
        replied_at = none;
      }

      add_query-taken :
          (before : ReportRow V)
          → find id w ≡ some before
          → (can_access_club db access "reports:review" before.club_id
              && is_submitted before.status)
            ≡ true
          → queries.create new_query w.queries ≡ none
          → add_query reports queries db env access id question w ≡ (err internal, w)
      unfolding add_query assert_can_access_club
      add_query-taken before found way taken = ground arith

      add_query-asked :
          (before after : ReportRow V) (t : T)
          → find id w ≡ some before
          → (can_access_club db access "reports:review" before.club_id
              && is_submitted before.status)
            ≡ true
          → queries.create new_query w.queries ≡ some t
          → reports.find_first
              (has_id reports queries db env id)
              (stored id (set_status reports queries db env queried) w.reports)
            ≡ some after
          → ((add_query reports queries db env access id question w).0 ≡ ok after)
            × ((add_query reports queries db env access id question w).1.reports
                ≡ stored id (set_status reports queries db env queried) w.reports)
            × ((add_query reports queries db env access id question w).1.queries ≡ t)
      unfolding add_query assert_can_access_club
      add_query-asked before after t found way made back =
          elim (Bool-cases (truthy? before.submitted_by_id)) [
            | inl author ↦ (ground arith, ground arith, ground arith)
            | inr nobody ↦ (ground arith, ground arith, ground arith)
          ]

      -- A question about a submitted report of a club that the caller may review is kept as one more
      -- query of the report, with its text and the caller and without an answer, and the report, and
      -- no other one, is queried; or it is refused, and nothing has changed.
      pub add_query-Outcome :
          let (result, w') = add_query reports queries db env access id question w in
          QueryOutcome result w'
      add_query-Outcome = elim (Option-cases (find id w)) [
        | inl missing ↦ of_query w _ (err not_found) (add_query-missing missing) refl
        | inr (before, found) ↦
            elim (Bool-cases (
              can_access_club db access "reports:review" before.club_id
              && is_submitted before.status)) [
                | inr no_way ↦
                    let (e, refused) = add_query-refused before found no_way in
                    of_query w _ (err e) refused refl
                | inl way ↦ elim (Option-cases (queries.create new_query w.queries)) [
                  | inl taken ↦
                      of_query w _ (err internal) (add_query-taken before found way taken) refl
                  | inr (t, made) ↦
                      let f = set_status reports queries db env queried in
                      let (after, back, r, e) = read_back id f w.reports before (λ r. refl) found in
                      let (returned, stays, kept) =
                        add_query-asked before after t found way made back in
                      rw returned (
                        before,
                        found,
                        is_submitted-only before.status (ground arith),
                        ground arith,
                        ap queries.rows kept ∙ queries.rows_create new_query w.queries t made,
                        ap reports.rows stays
                            ∙ reports.rows_update_many (has_id reports queries db env id) f
                                w.reports,
                        ap (reports.find_first (has_id reports queries db env id)) stays ∙ back,
                        rw e refl,
                      )
                ]
              ]
      ]

    -- Whatever the status of a report is, draft and scored included, an answer to a query on it that
    -- has none yet is accepted from one who may submit for the club, and leaves the report
    -- submitted.
    pub reply_query-submits :
        (query_id reply : String) (w : World S T) (before : ReportRow V) (query : ReportQueryRow)
        → find id w ≡ some before
        → can_access_club db access "reports:submit" before.club_id ≡ true
        → queries.find_first (query_has_id reports queries db env query_id) w.queries ≡ some query
        → (query.report_id == id) ≡ true
        → truthy? query.reply ≡ false
        → let (result, w') = reply_query reports queries db env access id query_id reply w in
          (after : ReportRow V) × (result ≡ ok after)
          × (find id w' ≡ some after)
          × (after.status ≡ submitted)
    unfolding reply_query assert_can_access_club
    reply_query-submits query_id reply w before query found granted asked here unanswered =
        let f = set_status reports queries db env submitted in
        let (after, back, r, e) = read_back id f w.reports before (λ r. refl) found in
        (after, ground arith, ground arith, rw e refl)
