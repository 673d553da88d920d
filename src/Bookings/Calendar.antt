-- ===== src/Bookings/Calendar.antt =====
-- `getPublicCalendar` of src/drr-bookings/drr-bookings.service.ts: what the public sees of each day.
-- The date text of a time (`toISOString().split('T')[0]`) is the number of its UTC day.
pub mod Days
use rac3011_api.Base.{
  ℕ, ◌+◌, ◌-◌, ◌/◌, String, Bool, true, false, ◌||◌, Option, none, some, List, [], ◌∷◌, ◌++◌, map,
  eqb, if◌then◌else◌, is_some, get_or, any,
}

-- `DrrBlock`, in the columns that matter here.
pub record BlockRow : Type 0 where
  pub starts_at : ℕ
  pub reason : Option String

abbrev pub date_key : ℕ → ℕ
date_key time = time / 86400000

abbrev pub capacity_per_day : ℕ
capacity_per_day = 2

-- An object keyed by date, in the order of the first assignments.
module _ {V : Type 0} where
  abbrev pub lookup : ℕ → List (ℕ × V) → Option V
  lookup k [] = none
  lookup k ((j, v) ∷ m) = if eqb j k then some v else lookup k m

  abbrev pub assign : ℕ → V → List (ℕ × V) → List (ℕ × V)
  assign k v [] = (k, v) ∷ []
  assign k v ((j, w) ∷ m) = if eqb j k then (j, v) ∷ m else (j, w) ∷ assign k v m

  abbrev pub keys : List (ℕ × V) → List ℕ
  keys [] = []
  keys ((j, v) ∷ m) = j ∷ keys m

-- The loop over the confirmed bookings, given by their start times.
unfoldable pub count_confirmed : List ℕ → List (ℕ × ℕ) → List (ℕ × ℕ)
count_confirmed [] counts = counts
count_confirmed (c ∷ confirmed) counts =
    count_confirmed confirmed
      (assign (date_key c) (get_or (lookup (date_key c) counts) 0 + 1) counts)

-- The loop over the blocks; `b.reason ?? undefined` is stored also where it is `undefined`.
unfoldable pub mark_blocked : List BlockRow → List (ℕ × Option String) → List (ℕ × Option String)
mark_blocked [] blocked = blocked
mark_blocked (b ∷ blocks) blocked =
    mark_blocked blocks (assign (date_key b.starts_at) b.reason blocked)

-- `new Set([…])`
abbrev pub date_add : ℕ → List ℕ → List ℕ
date_add k set = if any (eqb k) set then set else set ++ k ∷ []

abbrev pub date_add_all : List ℕ → List ℕ → List ℕ
date_add_all [] set = set
date_add_all (k ∷ ks) set = date_add_all ks (date_add k set)

pub record DayStatus : Type 0 where
  pub blocked : Bool
  pub reason : Option String
  pub booked_count : ℕ
  pub slots_remaining : ℕ

-- `blockedDatesMap[dateKey]`: `undefined` for a missing key and for a stored `undefined`.
abbrev pub stored : Option (Option String) → Option String
stored none = none
stored (some reason) = reason

abbrev pub status_of_day : List (ℕ × ℕ) → List (ℕ × Option String) → ℕ → DayStatus
status_of_day counts blocked_dates k =
    let reason = stored (lookup k blocked_dates) in
    let booked = get_or (lookup k counts) 0 in
    record {
      blocked = is_some reason;
      reason = reason;
      booked_count = booked;
      slots_remaining = if is_some reason then 0 else capacity_per_day - booked;
    }

-- `dayStatus`, as a list of its entries.
unfoldable pub day_status : List ℕ → List BlockRow → List (ℕ × DayStatus)
day_status confirmed blocks =
    let counts = count_confirmed confirmed [] in
    let blocked_dates = mark_blocked blocks [] in
    map (λ k. (k, status_of_day counts blocked_dates k))
      (date_add_all (keys blocked_dates) (date_add_all (keys counts) []))

-- `blockedDates`
unfoldable pub blocked_dates_list : List BlockRow → List (ℕ × Option String)
blocked_dates_list blocks = map (λ b. (date_key b.starts_at, b.reason)) blocks
