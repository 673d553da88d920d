-- ===== src/Reports/Tests.antt =====
-- Runs of the report code on a concrete table, and instances of its theorems.
use rac3011_api.Base.{
  ℕ, ◌≡◌, refl, true, false, none, some, List, [], ◌∷◌, ok, err, conflict, invalid_transition,
  already_exists, leb,
}
use rac3011_api.Db.{Table}
use rac3011_api.Db.ListTable.{list_table}
use rac3011_api.Effects.{emit}
use rac3011_api.Access.Types.{ResolvedAccess, club}
use rac3011_api.Access.Scope.{
  ClubClient, can_access_club, assert_can_access_club, can_access_club_any,
  assert_can_access_club_any,
}
use rac3011_api.Reports.Service.{
  ReportRow, ReportQueryRow, same_report, same_query, draft, submitted, queried, scored,
  UpdateReportInput, Env, World, update, update_existing, save, add_query, reply_query, is_editable,
}
use rac3011_api.Reports.Filing.{FilingEnv, create, create-Outcome, get}
use rac3011_api.Reports.Filing
use rac3011_api.Reports.Status
use rac3011_api.Reports.Status.{add_query-Outcome, reply_query-submits, find}

run : Unit {0}
unfolding create get update update_existing save add_query reply_query is_editable can_access_club
    assert_can_access_club can_access_club_any assert_can_access_club_any
run = tt

abbrev reports : Table (List (ReportRow ℕ)) (ReportRow ℕ) same_report
reports = list_table same_report

abbrev queries : Table (List ReportQueryRow) ReportQueryRow same_query
queries = list_table same_query

-- The values of a report are one number.
abbrev env : Env (List ReportQueryRow) ℕ
env = record {
  now = 90;
  new_id = λ t. "q2";
  merge = λ old new. new;
  validate = λ version values. ok tt;
  is_filed_on_time = λ month. leb 90 month;
}

abbrev db : ClubClient
db = record { find_unique = λ id. none; find_many = λ ids. []; find_many_iff = λ id ids. refl }

abbrev officer : ResolvedAccess
officer = record {
  user_id = "u1";
  is_super_admin = false;
  roles = [];
  grants =
      ("reports:submit", record { kind = club; id = some "c1" } ∷ [])
      ∷ ("reports:review", record { kind = club; id = some "c1" } ∷ [])
      ∷ [];
}

abbrev report : ReportRow ℕ
report = record {
  id = "r1";
  club_id = "c1";
  ry_year = 2026;
  month = 100;
  schema_version = 1;
  status = draft;
  values = 3;
  notes = none;
  submitted_by_id = none;
  submitted_at = none;
  filed_on_time = none;
  scored_at = none;
  legacy_id = none;
}

abbrev question : ReportQueryRow
question = record {
  id = "q1";
  report_id = "r1";
  asked_by_id = "u2";
  question = "How many?";
  reply = none;
  replied_by_id = none;
  replied_at = none;
}

abbrev world : ReportRow ℕ → World (List (ReportRow ℕ)) (List ReportQueryRow)
world r = record { reports = r ∷ []; queries = question ∷ []; effects = [] }

abbrev submitting : UpdateReportInput ℕ
submitting = record { values = some 5; notes = none; submit = true }

abbrev filed : ReportRow ℕ
filed = record report {
  status = submitted;
  values = 5;
  submitted_by_id = some "u1";
  submitted_at = some 90;
  filed_on_time = some true;
}

-- A draft is submitted; a submitted report is returned as it is; a scored one is a conflict.
submissions :
    (update reports queries db env officer "r1" submitting (world report)
      ≡ (ok filed, record (world filed) { effects = emit "report.submitted" "r1" ∷ [] }))
    × (update reports queries db env officer "r1" submitting (world filed)
        ≡ (ok filed, world filed))
    × ((update reports queries db env officer "r1" submitting
          (world (record filed { status = scored }))).0
        ≡ err (conflict invalid_transition))
unfolding run
submissions = (refl, refl, refl)

asked :
    (add_query reports queries db env officer "r1" "Why?" (world filed)).0
    ≡ ok (record filed { status = queried })
unfolding run
asked = refl

add_query-Outcome_example :
    Status.QueryOutcome reports queries db env officer "r1" "Why?"
      (world filed)
      (add_query reports queries db env officer "r1" "Why?" (world filed)).0
      (add_query reports queries db env officer "r1" "Why?" (world filed)).1
add_query-Outcome_example =
    add_query-Outcome reports queries db env officer "r1" "Why?" (world filed)

abbrev scored_report : ReportRow ℕ
scored_report = record filed { status = scored }

officer_may : can_access_club db officer "reports:submit" "c1" ≡ true
unfolding run
officer_may = refl

-- An open query of a report that has been scored since.
reply_query-submits_example :
    let (result, w') =
      reply_query reports queries db env officer "r1" "q1" "Ten" (world scored_report) in
    (after : ReportRow ℕ) × (result ≡ ok after)
    × (find reports queries db env "r1" w' ≡ some after)
    × (after.status ≡ submitted)
reply_query-submits_example =
    reply_query-submits reports queries db env officer "r1" "q1" "Ten" (world scored_report)
      scored_report question refl officer_may refl refl refl

abbrev filing : FilingEnv (List (ReportRow ℕ)) ℕ
filing = record {
  new_report_id = λ s. "r1";
  active_version = ok 1;
  empty_values = 3;
  ry_year_of = λ month. 2026;
}

abbrev no_reports : World (List (ReportRow ℕ)) (List ReportQueryRow)
no_reports = record { reports = []; queries = []; effects = [] }

created :
    (create reports queries db env filing officer "c1" 100 no_reports
      ≡ (ok report, record no_reports { reports = report ∷ [] }))
    × ((create reports queries db env filing officer "c1" 100 (world report)).0
        ≡ err (conflict already_exists))
    × (get reports queries db env filing officer "r1" (world report) ≡ (ok report, world report))
unfolding run
created = (refl, refl, refl)

create-Outcome_example :
    Filing.CreateOutcome reports queries db env filing officer "c1" 100 no_reports
      (create reports queries db env filing officer "c1" 100 no_reports).0
      (create reports queries db env filing officer "c1" 100 no_reports).1
create-Outcome_example = create-Outcome reports queries db env filing officer "c1" 100 no_reports
