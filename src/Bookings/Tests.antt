-- ===== src/Bookings/Tests.antt =====
-- Runs of the booking code on a concrete table, and instances of its theorems.
use rac3011_api.Base.{
  ℕ, ◌-◌, ◌*◌, ◌<◌, ◌≡◌, refl, true, false, ◌||◌, none, some, List, [], ◌∷◌, arith, if◌then◌else◌,
  any, keep, length, eqb, ok, err, forbidden, not_found, conflict, invalid_transition, codes,
  decimal, decimal_from,
}
use rac3011_api.Db.{Table}
use rac3011_api.Db.ListTable.{list_table}
use rac3011_api.Access.Types.{unscoped, ResolvedAccess}
use rac3011_api.Access.Guard.{RequestContext}
use rac3011_api.Access.Scope.{has_district_scope, assert_district_scope}
use rac3011_api.Bookings.Types.{
  DrrBookingRow, CreateInput, DecideInput, BookingStatus, meeting, requested, cancelled, confirm,
  decline, same_reference, decidable_from,
}
use rac3011_api.Bookings.Reference.{
  build_booking_reference, is_booking_reference, pad_start2, letter_from, suffix_from, matches,
  alphabet,
}
use rac3011_api.Bookings.Service.{
  Env, World, submit, decide, get, create_from, create_with_reference, notify_officers,
  find_officers, add_officers, repo_decide, accepted, by_reference,
}
use rac3011_api.Bookings.Service.Submission
use rac3011_api.Bookings.Service.Submission.{submit-Outcome}
use rac3011_api.Bookings.Service.Decision
use rac3011_api.Bookings.Service.Decision.{officer, decide-Outcome, decide_again}
use rac3011_api.Bookings.Calendar.{
  BlockRow, lookup, day_status, count_confirmed, mark_blocked, blocked_dates_list,
}
use rac3011_api.Bookings.Calendar.Days.{
  on_day, block_on_day, expected, lookup-day_status, day_status-block_without_reason,
}

run : Unit {0}
unfolding build_booking_reference is_booking_reference decimal decimal_from pad_start2 letter_from
    suffix_from matches submit decide get create_from create_with_reference notify_officers
    find_officers add_officers repo_decide decidable_from has_district_scope assert_district_scope
    day_status count_confirmed mark_blocked by_reference
run = tt

reference_built : build_booking_reference 2026 8 (λ j. j * 5) ≡ codes "DRR-2609-AFMSY5"
unfolding run
reference_built = refl

reference_checks :
    (is_booking_reference (codes "DRR-2609-AFMSY5") ≡ true)
    × (is_booking_reference (codes "DRR-2609-AFMSX0") ≡ false)
    × (is_booking_reference (codes "DRR-2609-AFMSX") ≡ false)
unfolding run
reference_checks = (refl, refl, refl)

abbrev table : Table (List DrrBookingRow) DrrBookingRow same_reference
table = list_table same_reference

-- The first two attempts draw the letters of the booking that is already there.
abbrev env : Env (List DrrBookingRow)
env = record {
  now = 1000;
  year = 2026;
  month = 8;
  pick = λ attempt j. if eqb attempt 3 then 1 else 0;
  new_id = λ s. "new";
  club_exists = λ c. false;
  drr_rows = ("u1", some "drr@x.org") ∷ ("u2", none) ∷ [];
  admin_rows = ("u1", some "admin@x.org") ∷ [];
  specific_email_users = [];
}

abbrev old : DrrBookingRow
old = record {
  id = "b1";
  reference = codes "DRR-2609-AAAAAA";
  purpose = meeting;
  club_id = none;
  requester_name = "Ann";
  requester_email = "ann@x.org";
  requester_phone = "12345";
  starts_at = 86400000;
  ends_at = 90000000;
  notes = none;
  status = requested;
  decision_reason = none;
  decided_by_id = none;
  decided_at = none;
  created_at = 1;
  updated_at = 1;
}

abbrev world : World (List DrrBookingRow)
world = record { bookings = old ∷ []; effects = [] }

abbrev input : CreateInput
input = record {
  purpose = meeting;
  club_id = none;
  requester_name = "Bob";
  requester_email = "bob@x.org";
  requester_phone = "54321";
  starts_at = 86400000;
  ends_at = 90000000;
  notes = none;
  website = none;
}

third_attempt : (submit table env input world).0 ≡ ok (accepted (codes "DRR-2609-BBBBBB") requested)
unfolding run
third_attempt = refl

abbrev access : ResolvedAccess
access = record {
  user_id = "u1";
  is_super_admin = false;
  roles = [];
  grants = ("drr_calendar:manage", record { kind = unscoped; id = none } ∷ []) ∷ [];
}

abbrev ctx : RequestContext
ctx = record { user_id = "u1"; session_id = "s1"; session_expires_at = none; access = access }

abbrev confirming : DecideInput
confirming = record { status = confirm; decision_reason = none }

decisions :
    ((decide table env ctx "b2" confirming world).0 ≡ err not_found)
    × ((decide table env ctx "b1" confirming
          (record { bookings = record old { status = cancelled } ∷ []; effects = [] })).0
        ≡ err (conflict invalid_transition))
    × ((decide table env
          (record ctx { access = record access { grants = [] } })
          "b1"
          confirming
          world).0
        ≡ err forbidden)
unfolding run
decisions = (refl, refl, refl)

picks_in_range : (attempt j : ℕ) → env.pick attempt j < length alphabet
picks_in_range attempt j = ground arith

submit-Outcome_example : Submission.Outcome table env input world (submit table env input world)
submit-Outcome_example = submit-Outcome table env input world (omega arith) picks_in_range

decide-Outcome_example :
    Decision.Outcome table env ctx "b1" confirming world
      (decide table env ctx "b1" confirming world)
decide-Outcome_example = decide-Outcome table env ctx "b1" confirming world

abbrev confirmed_row : DrrBookingRow
confirmed_row = record old {
  status = BookingStatus.confirmed;
  decided_by_id = some "u1";
  decided_at = some 1000;
  updated_at = 1000;
}

decide_again_example :
    (row' : DrrBookingRow) × (w'' : World (List DrrBookingRow)) × (decide table env ctx "b1"
        (record { status = decline; decision_reason = some "no" })
        (decide table env ctx "b1" confirming world).1
      ≡ (ok row', w''))
unfolding run
decide_again_example =
    decide_again table env ctx ctx "b1" confirming
      (record { status = decline; decision_reason = some "no" }) world
      (decide table env ctx "b1" confirming world).1 confirmed_row refl refl

-- Two bookings on day 5, a block with a reason and one without on days 5 and 6.
abbrev confirmed_times : List ℕ
confirmed_times = 432000000 ∷ 432000005 ∷ []

abbrev blocks : List BlockRow
blocks =
    record { starts_at = 432000000; reason = some "travel" }
    ∷ record { starts_at = 518400000; reason = none }
    ∷ []

lookup-day_status_example : lookup 5 (day_status confirmed_times blocks) ≡ (
    if any (on_day 5) confirmed_times || any (block_on_day 5) blocks
    then some (expected 5 confirmed_times blocks)
    else none)
lookup-day_status_example = lookup-day_status 5 confirmed_times blocks

day_status-block_without_reason_example :
    (any (λ e. eqb e.0 6) (blocked_dates_list blocks) ≡ true)
    × (lookup 6 (day_status confirmed_times blocks)
        ≡ some (record {
          blocked = false;
          reason = none;
          booked_count = length (keep (on_day 6) confirmed_times);
          slots_remaining = 2 - length (keep (on_day 6) confirmed_times);
        }))
day_status-block_without_reason_example =
    day_status-block_without_reason 6 confirmed_times blocks refl refl
