-- ===== src/Standings/Counts.antt =====
-- The games and the wins of a row, counted over the fixtures.
use rac3011_api.Base.{
  ◌≡◌, refl, String, true, ◌||◌, some, List, [], ◌∷◌, map, if◌then◌else◌, ◌==◌, arith, inl, inr,
  Bool-cases, Option-cases, All, is_some, get_or, eq_iff, ◌∙◌,
}
use rac3011_api.Standings.{
  StandingsTeam, StandingsFixture, StandingsSettings, StandingsRow, Accumulator, Accumulators,
  acc_get, acc_set, empty_accumulator, play, play_all, empty_table, row_of, compute_standings,
  both_known,
}
use rac3011_api.Standings.Gains.{
  listed, counts, games_in, wins_in, total, Gains, then-Gains, play-Gains, is_some-play,
}

is_some-acc_set :
    (k id : String) (acc : Accumulators)
    → is_some (acc_get k (acc_set id empty_accumulator acc)) ≡ (id == k || is_some (acc_get k acc))
is_some-acc_set k id [] = ground arith
is_some-acc_set k id ((j, a) ∷ acc) =
    ground (arith, is_some-acc_set k id acc, eq_iff j id, eq_iff j k, eq_iff id k)

is_some-empty_table :
    (teams : List StandingsTeam) (k : String) (acc : Accumulators)
    → is_some (acc_get k (empty_table teams acc)) ≡ (listed teams k || is_some (acc_get k acc))
unfolding empty_table
is_some-empty_table [] k acc = refl
is_some-empty_table (team ∷ teams) k acc = ground (
  arith,
  is_some-empty_table teams k (acc_set team.id empty_accumulator acc),
  is_some-acc_set k team.id acc,
)

acc_get-acc_set :
    (j id : String) (e : Accumulator) (acc : Accumulators)
    → acc_get j (acc_set id e acc) ≡ (if id == j then some e else acc_get j acc)
acc_get-acc_set j id e [] = ground arith
acc_get-acc_set j id e ((i, a) ∷ acc) =
    ground (arith, acc_get-acc_set j id e acc, eq_iff i id, eq_iff i j, eq_iff id j)

abbrev NoGames : Accumulators → Type 0
NoGames acc = (j : String) (a : Accumulator) → acc_get j acc ≡ some a → (a.played ≡ 0) × (a.won ≡ 0)

empty_table-NoGames :
    (teams : List StandingsTeam) (acc : Accumulators)
    → NoGames acc
    → NoGames (empty_table teams acc)
unfolding empty_table
empty_table-NoGames [] acc h = h
empty_table-NoGames (team ∷ teams) acc h =
    empty_table-NoGames teams (acc_set team.id empty_accumulator acc) (λ j b got.
      elim (Bool-cases (team.id == j)) [
        | inl this ↦ ground (arith, acc_get-acc_set j team.id empty_accumulator acc)
        | inr other ↦ h j b (ground (arith, acc_get-acc_set j team.id empty_accumulator acc))
      ])

module _ (settings : StandingsSettings) (teams : List StandingsTeam) where
  abbrev HasTeams : Accumulators → Type 0
  HasTeams acc = (j : String) → is_some (acc_get j acc) ≡ listed teams j

  play_one-Gains :
      (k : String) (fixture : StandingsFixture) (acc : Accumulators)
      → HasTeams acc
      → Gains k
          (if counts teams fixture then games_in k fixture else 0)
          (if counts teams fixture then wins_in k fixture else 0)
          acc
          (play settings fixture acc)
  play_one-Gains k fixture acc has =
      let known : both_known fixture acc ≡ counts teams fixture =
        ground (arith, has fixture.home_team_id, has fixture.away_team_id) in
      elim (Bool-cases (counts teams fixture)) [
        | inl counted ↦ rw counted (play-Gains settings k fixture acc (known ∙ counted))
        | inr never ↦
            rw never
              (unfold play in rw (known ∙ never) (λ a found. (a, found, omega arith, omega arith)))
      ]

  play_all-Gains :
      (k : String) (fixtures : List StandingsFixture) (acc : Accumulators)
      → HasTeams acc
      → Gains k
          (total teams (games_in k) fixtures)
          (total teams (wins_in k) fixtures)
          acc
          (play_all settings fixtures acc)
  unfolding play_all
  play_all-Gains k [] acc has = λ a found. (a, found, omega arith, omega arith)
  play_all-Gains k (fixture ∷ fixtures) acc has =
      then-Gains k _ _ _ _ acc (play settings fixture acc) _ (play_one-Gains k fixture acc has) (
        play_all-Gains k fixtures (play settings fixture acc)
          (λ j. is_some-play settings j fixture acc ∙ has j))

  -- The games and the wins of one listed team.
  team_totals :
      (k : String) (fixtures : List StandingsFixture)
      → listed teams k ≡ true
      → let a =
          get_or
            (acc_get k (play_all settings fixtures (empty_table teams [])))
            empty_accumulator in
        (a.played ≡ total teams (games_in k) fixtures) × (a.won ≡ total teams (wins_in k) fixtures)
  team_totals k fixtures here =
      let start = empty_table teams [] in
      let has : HasTeams start = λ j. ground (arith, is_some-empty_table teams j []) in
      elim (Option-cases (acc_get k start)) [
        | inl missing ↦ absurd (ground (arith, has k, missing, here))
        | inr (a, found) ↦
            let (b, got, p, w) = play_all-Gains k fixtures start has a found in
            let (no_games, no_wins) =
              empty_table-NoGames teams [] (λ j x h. absurd (cc)) k a found in
            rw got (omega arith, omega arith)
      ]

  rows_totals :
      (fixtures : List StandingsFixture) (ts : List StandingsTeam)
      → ((k : String) → listed ts k ≡ true → listed teams k ≡ true)
      → let rows = map (row_of (play_all settings fixtures (empty_table teams []))) ts in
        All
          (λ (row : StandingsRow).
            (row.totals.played ≡ total teams (games_in row.team_id) fixtures)
            × (row.totals.won ≡ total teams (wins_in row.team_id) fixtures))
          rows
  rows_totals fixtures [] sub = tt
  rows_totals fixtures (team ∷ ts) sub = (
    team_totals team.id fixtures (sub team.id (ground (arith, eq_iff team.id team.id))),
    rows_totals fixtures ts (λ k h. sub k (ground arith)),
  )

  -- In every row the games played are the appearances of the team, on either side, in the fixtures
  -- whose two teams are listed, and the games won are those of these fixtures whose winner is one of
  -- their two teams and is this team.
  pub compute_standings-totals :
      (fixtures : List StandingsFixture)
      → All
          (λ (row : StandingsRow).
            (row.totals.played ≡ total teams (games_in row.team_id) fixtures)
            × (row.totals.won ≡ total teams (wins_in row.team_id) fixtures))
          (compute_standings teams fixtures settings)
  unfolding compute_standings
  compute_standings-totals fixtures = rows_totals fixtures teams (λ k h. h)
