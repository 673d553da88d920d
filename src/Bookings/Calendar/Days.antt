-- ===== src/Bookings/Calendar/Days.antt =====
-- The status of each day, against a count of its bookings and its last block.
use rac3011_api.Base.{
  ℕ, ◌+◌, ◌-◌, String, ◌≡◌, refl, ◌∙◌, ap, Bool, true, false, ◌&&◌, ◌||◌, Option, none, some, List,
  [], ◌∷◌, map, arith, eqb, eqb→eq, if◌then◌else◌, is_some, get_or, any, any-append, keep, length,
  Bool-cases, inl, inr,
}
use rac3011_api.Bookings.Calendar.{
  BlockRow, date_key, capacity_per_day, lookup, assign, keys, count_confirmed, mark_blocked,
  date_add, date_add_all, DayStatus, stored, status_of_day, day_status, blocked_dates_list,
}

module _ {V : Type 0} where
  lookup-assign :
      (k j : ℕ) (v : V) (m : List (ℕ × V))
      → lookup j (assign k v m) ≡ (if eqb k j then some v else lookup j m)
  lookup-assign k j v [] = refl
  lookup-assign k j v ((i, w) ∷ m) = ground (arith, lookup-assign k j v m)

  any-keys : (k : ℕ) (m : List (ℕ × V)) → any (eqb k) (keys m) ≡ is_some (lookup k m)
  any-keys k [] = refl
  any-keys k ((j, v) ∷ m) = ground (arith, any-keys k m)

  lookup-map :
      (f : ℕ → V) (k : ℕ) (ks : List ℕ)
      → lookup k (map (λ j. (j, f j)) ks) ≡ (if any (eqb k) ks then some (f k) else none)
  lookup-map f k [] = refl
  lookup-map f k (j ∷ ks) = elim (Bool-cases (eqb j k)) [
    | inl same ↦ let e : j ≡ k = eqb→eq j k same in rw e (ground arith)
    | inr other ↦ ground (arith, lookup-map f k ks)
  ]

any-date_add_all :
    (k : ℕ) (ks set : List ℕ)
    → any (eqb k) (date_add_all ks set) ≡ (any (eqb k) set || any (eqb k) ks)
any-date_add_all k [] set = ground arith
any-date_add_all k (j ∷ ks) set = elim (Bool-cases (eqb k j)) [
  | inl same ↦
      let e : k ≡ j = eqb→eq k j same in
      rw e (ground (arith, any-date_add_all j ks (date_add j set), any-append (eqb j) set (j ∷ [])))
  | inr other ↦
      ground (arith, any-date_add_all k ks (date_add j set), any-append (eqb k) set (j ∷ []))
]

-- Whether a time falls on the day `k`.
abbrev pub on_day : ℕ → ℕ → Bool
on_day k time = eqb (date_key time) k

abbrev pub block_on_day : ℕ → BlockRow → Bool
block_on_day k b = on_day k b.starts_at

lookup-count_confirmed :
    (k : ℕ) (confirmed : List ℕ) (counts : List (ℕ × ℕ))
    → get_or (lookup k (count_confirmed confirmed counts)) 0
      ≡ get_or (lookup k counts) 0 + length (keep (on_day k) confirmed)
unfolding count_confirmed
lookup-count_confirmed k [] counts = omega arith
lookup-count_confirmed k (c ∷ confirmed) counts =
    let day = date_key c in
    let booked = get_or (lookup day counts) 0 + 1 in
    let ih = lookup-count_confirmed k confirmed (assign day booked counts) in
    elim (Bool-cases (eqb day k)) [
      | inl same ↦
          let e : day ≡ k = eqb→eq day k same in
          ground (arith, ih, lookup-assign day k booked counts, ap (λ j. lookup j counts) e)
      | inr other ↦ ground (arith, ih, lookup-assign day k booked counts)
    ]

is_some-lookup-count_confirmed :
    (k : ℕ) (confirmed : List ℕ) (counts : List (ℕ × ℕ))
    → is_some (lookup k (count_confirmed confirmed counts))
      ≡ (is_some (lookup k counts) || any (on_day k) confirmed)
unfolding count_confirmed
is_some-lookup-count_confirmed k [] counts = ground arith
is_some-lookup-count_confirmed k (c ∷ confirmed) counts =
    let booked = get_or (lookup (date_key c) counts) 0 + 1 in
    ground (
      arith,
      is_some-lookup-count_confirmed k confirmed (assign (date_key c) booked counts),
      lookup-assign (date_key c) k booked counts,
    )

-- The reason of the last block of a day, starting from `reason`.
abbrev pub last_reason : ℕ → List BlockRow → Option String → Option String
last_reason k [] reason = reason
last_reason k (b ∷ blocks) reason =
    last_reason k blocks (if block_on_day k b then b.reason else reason)

stored-mark_blocked :
    (k : ℕ) (blocks : List BlockRow) (blocked : List (ℕ × Option String))
    → stored (lookup k (mark_blocked blocks blocked))
      ≡ last_reason k blocks (stored (lookup k blocked))
unfolding mark_blocked
stored-mark_blocked k [] blocked = refl
stored-mark_blocked k (b ∷ blocks) blocked =
    stored-mark_blocked k blocks (assign (date_key b.starts_at) b.reason blocked)
    ∙ ap (last_reason k blocks)
        (ground (arith, lookup-assign (date_key b.starts_at) k b.reason blocked))

is_some-lookup-mark_blocked :
    (k : ℕ) (blocks : List BlockRow) (blocked : List (ℕ × Option String))
    → is_some (lookup k (mark_blocked blocks blocked))
      ≡ (is_some (lookup k blocked) || any (block_on_day k) blocks)
unfolding mark_blocked
is_some-lookup-mark_blocked k [] blocked = ground arith
is_some-lookup-mark_blocked k (b ∷ blocks) blocked = ground (
  arith,
  is_some-lookup-mark_blocked k blocks (assign (date_key b.starts_at) b.reason blocked),
  lookup-assign (date_key b.starts_at) k b.reason blocked,
)

-- What the day should show, from the bookings and the blocks themselves.
abbrev pub expected : ℕ → List ℕ → List BlockRow → DayStatus
expected k confirmed blocks =
    let reason = last_reason k blocks none in
    let booked = length (keep (on_day k) confirmed) in
    record {
      blocked = is_some reason;
      reason = reason;
      booked_count = booked;
      slots_remaining = if is_some reason then 0 else capacity_per_day - booked;
    }

status_of_day-expected :
    (k : ℕ) (confirmed : List ℕ) (blocks : List BlockRow)
    → status_of_day (count_confirmed confirmed []) (mark_blocked blocks []) k
      ≡ expected k confirmed blocks
status_of_day-expected k confirmed blocks =
    rw (stored-mark_blocked k blocks [], lookup-count_confirmed k confirmed []) (ground arith)

-- A day has an entry exactly if a confirmed booking or a block starts on it, and the entry counts
-- the day's confirmed bookings, takes the reason of its last block, and offers the slots that are
-- left of two, or none if that reason is given.
pub lookup-day_status :
    (k : ℕ) (confirmed : List ℕ) (blocks : List BlockRow)
    → lookup k (day_status confirmed blocks) ≡ (
        if any (on_day k) confirmed || any (block_on_day k) blocks
        then some (expected k confirmed blocks)
        else none)
unfolding day_status
lookup-day_status k confirmed blocks =
    let counts = count_confirmed confirmed [] in
    let blocked_dates = mark_blocked blocks [] in
    lookup-map (status_of_day counts blocked_dates) k _
    ∙ ground (
      arith,
      status_of_day-expected k confirmed blocks,
      any-date_add_all k (keys blocked_dates) (date_add_all (keys counts) []),
      any-date_add_all k (keys counts) [],
      any-keys k counts,
      any-keys k blocked_dates,
      is_some-lookup-count_confirmed k confirmed [],
      is_some-lookup-mark_blocked k blocks [],
    )

last_reason-none :
    (k : ℕ) (blocks : List BlockRow)
    → any (λ b. block_on_day k b && is_some b.reason) blocks ≡ false
    → last_reason k blocks none ≡ none
last_reason-none k [] h = refl
last_reason-none k (b ∷ blocks) h = elim (Bool-cases (block_on_day k b)) [
  | inl here ↦
      simp here (
        let e : b.reason ≡ none = ground arith in simp e (last_reason-none k blocks (ground arith)))
  | inr away ↦ simp away (last_reason-none k blocks (ground arith))
]

any-blocked_dates_list :
    (k : ℕ) (blocks : List BlockRow)
    → any (λ e. eqb e.0 k) (blocked_dates_list blocks) ≡ any (block_on_day k) blocks
unfolding blocked_dates_list
any-blocked_dates_list k [] = refl
any-blocked_dates_list k (b ∷ blocks) = ground (arith, any-blocked_dates_list k blocks)

-- A day whose blocks carry no reason is shown as not blocked, with its slots open, although the
-- list of blocked dates names it.
pub day_status-block_without_reason :
    (k : ℕ) (confirmed : List ℕ) (blocks : List BlockRow)
    → any (block_on_day k) blocks ≡ true
    → any (λ b. block_on_day k b && is_some b.reason) blocks ≡ false
    → (any (λ e. eqb e.0 k) (blocked_dates_list blocks) ≡ true)
      × (lookup k (day_status confirmed blocks)
          ≡ some (record {
            blocked = false;
            reason = none;
            booked_count = length (keep (on_day k) confirmed);
            slots_remaining = 2 - length (keep (on_day k) confirmed);
          }))
day_status-block_without_reason k confirmed blocks listed silent = (
  any-blocked_dates_list k blocks ∙ listed,
  lookup-day_status k confirmed blocks ∙ ground (arith, last_reason-none k blocks silent),
)
