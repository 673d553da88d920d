-- ===== src/Reports/Service.antt =====
-- src/reports/reports.service.ts and the queries of reports.repository.ts that it makes: editing,
-- submitting, querying and answering a report. `V` is the type of the values of a report.
use rac3011_api.Base.{
  ℕ, String, Bool, true, false, not, ◌&&◌, ◌||◌, Option, none, some, List, [], ◌∷◌, ◌++◌, ◌==◌,
  if◌then◌else◌, truthy?, is_some, get_or, Result, ok, err, not_found, internal, conflict,
  invalid_transition, eqb,
}
use rac3011_api.Action.{Action, pure, raise, raise_if, lift, gets, or_raise, modify, ◌>>=◌, ◌>>◌}
use rac3011_api.Db.{Table}
use rac3011_api.Effects.{Effect, audit, notify, emit}
use rac3011_api.Access.Types.{ResolvedAccess}
use rac3011_api.Access.Scope.{ClubClient, assert_can_access_club}

pub data ReportStatus : Type 0 where
  draft submitted queried scored : ReportStatus

abbrev pub is_submitted : ReportStatus → Bool
is_submitted submitted = true
is_submitted draft = false
is_submitted queried = false
is_submitted scored = false

abbrev pub is_scored : ReportStatus → Bool
is_scored scored = true
is_scored draft = false
is_scored submitted = false
is_scored queried = false

-- `status === 'draft' || status === 'queried'`
unfoldable pub is_editable : ReportStatus → Bool
is_editable draft = true
is_editable queried = true
is_editable submitted = false
is_editable scored = false

pub record ReportRow (V : Type 0) : Type 0 where
  pub id : String
  pub club_id : String
  pub ry_year : ℕ
  pub month : ℕ
  pub schema_version : ℕ
  pub status : ReportStatus
  pub values : V
  pub notes : Option String
  pub submitted_by_id : Option String
  pub submitted_at : Option ℕ
  pub filed_on_time : Option Bool
  pub scored_at : Option ℕ
  pub legacy_id : Option String

pub record ReportQueryRow : Type 0 where
  pub id : String
  pub report_id : String
  pub asked_by_id : String
  pub question : String
  pub reply : Option String
  pub replied_by_id : Option String
  pub replied_at : Option ℕ

-- The keys of the tables: the id, and the club with the month.
abbrev pub same_report : {V : Type 0} → ReportRow V → ReportRow V → Bool
same_report a b = a.id == b.id || (a.club_id == b.club_id && eqb a.month b.month)

abbrev pub same_query : ReportQueryRow → ReportQueryRow → Bool
same_query a b = a.id == b.id

-- `values` and `notes` are `none` if they are left out; the only status that can be asked for is
-- 'submitted'.
pub record UpdateReportInput (V : Type 0) : Type 0 where
  pub values : Option V
  pub notes : Option (Option String)
  pub submit : Bool

-- What the service meets outside: the time, the id of the next query, `{ ...old, ...new }`, the
-- validation of values against the schema of a version, and whether a report of a month that is
-- submitted now is filed on time.
pub record Env (T V : Type 0) : Type 0 where
  pub now : ℕ
  pub new_id : T → String
  pub merge : V → V → V
  pub validate : ℕ → V → Result (Unit {0})
  pub is_filed_on_time : ℕ → Bool

pub record World (S T : Type 0) : Type 0 where
  pub reports : S
  pub queries : T
  pub effects : List Effect

module _ {S T V : Type 0} (reports : Table S (ReportRow V) same_report)
    (queries : Table T ReportQueryRow same_query) (db : ClubClient) (env : Env T V) where
  abbrev pub log : Effect → Action (World S T) (Unit {0})
  log e = modify (λ w. record w { effects = w.effects ++ e ∷ [] })

  abbrev pub has_id : String → ReportRow V → Bool
  has_id id r = r.id == id

  abbrev pub query_has_id : String → ReportQueryRow → Bool
  query_has_id id q = q.id == id

  abbrev pub find_or_throw : String → Action (World S T) (ReportRow V)
  find_or_throw id = do
    row ← gets (λ w. reports.find_first (has_id id) w.reports)
    or_raise row not_found

  abbrev pub may : ResolvedAccess → String → String → Action (World S T) (Unit {0})
  may access permission club_id = lift (assert_can_access_club db access permission club_id)

  -- `repo.update(id, …)`
  abbrev pub repo_update : String → (ReportRow V → ReportRow V) → Action (World S T) (Unit {0})
  repo_update id f =
      modify (λ w. record w { reports = reports.update_many (has_id id) f w.reports })

  abbrev pub set_status : ReportStatus → ReportRow V → ReportRow V
  set_status status r = record r { status = status }

  abbrev pub next_values : UpdateReportInput V → ReportRow V → V
  next_values input existing = elim input.values [
    | none ↦ existing.values
    | some values ↦ env.merge existing.values values
  ]

  -- The `data` of the update; what is `undefined` stays as it is.
  abbrev pub saved : ResolvedAccess → UpdateReportInput V → ReportRow V → ReportRow V → ReportRow V
  saved access input existing r =
      let edited : ReportRow V = record r {
        values = if is_some input.values then next_values input existing else r.values;
        notes = get_or input.notes r.notes;
      } in
      if input.submit
      then record edited {
        status = submitted;
        submitted_by_id = some access.user_id;
        submitted_at = some env.now;
        filed_on_time = some (env.is_filed_on_time existing.month);
      }
      else edited

  -- `update` from the computation of the next values on.
  unfoldable pub save :
      ResolvedAccess → String → UpdateReportInput V → ReportRow V → Action (World S T) (ReportRow V)
  save access id input existing = do
    (if is_some input.values || input.submit
        then lift (env.validate existing.schema_version (next_values input existing))
        else pure tt)
    repo_update id (saved access input existing)
    (if input.submit then log (emit "report.submitted" id) else pure tt)
    find_or_throw id

  -- `update` from the checks of the status on.
  unfoldable pub update_existing :
      ResolvedAccess → String → UpdateReportInput V → ReportRow V → Action (World S T) (ReportRow V)
  update_existing access id input existing =
      if input.submit && not (is_editable existing.status)
      then if is_submitted existing.status
        then pure existing
        else raise (conflict invalid_transition)
      else if (is_some input.values || is_some input.notes) && not (is_editable existing.status)
      then if is_submitted existing.status || is_scored existing.status
        then pure existing
        else raise (conflict invalid_transition)
      else save access id input existing

  unfoldable pub update :
      ResolvedAccess → String → UpdateReportInput V → Action (World S T) (ReportRow V)
  update access id input = do
    existing ← find_or_throw id
    may access "reports:submit" existing.club_id
    update_existing access id input existing

  -- `repo.addQuery`
  abbrev pub create_query : String → String → String → Action (World S T) String
  create_query report_id asked_by_id question w =
      elim (queries.create
        record {
          id = env.new_id w.queries;
          report_id = report_id;
          asked_by_id = asked_by_id;
          question = question;
          reply = none;
          replied_by_id = none;
          replied_at = none;
        }
        w.queries) [
          | none ↦ (err internal, w)
          | some t ↦ (ok (env.new_id w.queries), record w { queries = t })
        ]

  unfoldable pub add_query : ResolvedAccess → String → String → Action (World S T) (ReportRow V)
  add_query access report_id question = do
    report ← find_or_throw report_id
    may access "reports:review" report.club_id
    raise_if (not (is_submitted report.status)) (conflict invalid_transition)
    query_id ← create_query report_id access.user_id question
    repo_update report_id (set_status queried)
    log (audit (some access.user_id) "report.queried" "report" (some report_id))
    log (emit "report.queried" report_id)
    (if truthy? report.submitted_by_id
        then log (
            notify "report-queried"
              (record { user_id = report.submitted_by_id; email = none } ∷ []))
        else pure tt)
    find_or_throw report_id

  abbrev pub answered : String → String → ReportQueryRow → ReportQueryRow
  answered reply user_id q = record q {
    reply = some reply;
    replied_by_id = some user_id;
    replied_at = some env.now;
  }

  unfoldable pub reply_query :
      ResolvedAccess → String → String → String → Action (World S T) (ReportRow V)
  reply_query access report_id query_id reply = do
    report ← find_or_throw report_id
    may access "reports:submit" report.club_id
    found ← gets (λ w. queries.find_first (query_has_id query_id) w.queries)
    query ← or_raise found not_found
    raise_if (not (query.report_id == report_id)) not_found
    raise_if (truthy? query.reply) (conflict invalid_transition)
    modify (λ w. record w {
      queries =
          queries.update_many (query_has_id query_id) (answered reply access.user_id) w.queries;
    })
    repo_update report_id (set_status submitted)
    log (audit (some access.user_id) "report.query_replied" "report" (some report_id))
    log (notify "report-replied" (record { user_id = some query.asked_by_id; email = none } ∷ []))
    find_or_throw report_id
