-- ===== src/Standings/Laws.antt =====
-- Every team's games are its wins, ties and losses, and its points are those of its wins and ties.
use native.Mathlib.Nat.{add-mul}
use rac3011_api.Base.{
  ℕ, ◌+◌, ◌*◌, ◌≡◌, String, Bool, true, false, Option, none, some, List, [], ◌∷◌, map,
  if◌then◌else◌, ◌==◌, arith, inl, inr, Bool-cases, All, is_text, get_or,
}
use rac3011_api.Standings.{
  StandingsTeam, StandingsFixture, StandingsSettings, StandingsResult, StandingsRow, Accumulator,
  Accumulators, change, acc_get, acc_set, empty_accumulator, add_game, add_win, add_tie, add_loss,
  add_runs, award, add_result, play, play_all, empty_table, row_of, compute_standings, winner_of,
  both_known,
}

-- A change of one entry, in a property of all.
All-change :
    (P : String × Accumulator → Type 0) (Q : String × Accumulator → Type 0) (id : String)
    (f : Accumulator → Accumulator) (acc : Accumulators)
    → ((k : String) (a : Accumulator) → P (k, a) → Q (k, if k == id then f a else a))
    → All P acc
    → All Q (change id f acc)
All-change P Q id f [] step h = tt
All-change P Q id f ((k, a) ∷ acc) step (p, h) = (step k a p, All-change P Q id f acc step h)

abbrev one_if : Bool → ℕ
one_if true = 1
one_if false = 0

module _ (settings : StandingsSettings) where
  abbrev pub IsBalanced : Accumulator → Type 0
  IsBalanced a =
      (a.played ≡ a.won + a.tied + a.lost)
      × (a.points ≡ a.won * settings.points_win + a.tied * settings.points_tie)

  -- The same, with games of which the outcome is still to be noted.
  abbrev Owes : (String → ℕ) → String × Accumulator → Type 0
  Owes owed (k, a) =
      (a.played ≡ a.won + a.tied + a.lost + owed k)
      × (a.points ≡ a.won * settings.points_win + a.tied * settings.points_tie)

  game_step :
      (owed : String → ℕ) (id : String) (acc : Accumulators)
      → All (Owes owed) acc
      → All (Owes (λ k. owed k + one_if (k == id))) (change id add_game acc)
  game_step owed id acc =
      All-change (Owes owed) (Owes (λ k. owed k + one_if (k == id))) id add_game acc
        (λ k a h. ground arith)

  loss_step :
      (owed : String → ℕ) (id : String) (acc : Accumulators)
      → All (Owes (λ k. owed k + one_if (k == id))) acc
      → All (Owes owed) (change id add_loss acc)
  loss_step owed id acc =
      All-change (Owes (λ k. owed k + one_if (k == id))) (Owes owed) id add_loss acc
        (λ k a h. ground arith)

  win_step :
      (owed : String → ℕ) (id : String) (acc : Accumulators)
      → All (Owes (λ k. owed k + one_if (k == id))) acc
      → All (Owes owed) (change id (add_win settings) acc)
  win_step owed id acc =
      All-change (Owes (λ k. owed k + one_if (k == id))) (Owes owed) id (add_win settings) acc
        (λ k a h. ground (arith, add-mul a.won 1 settings.points_win))

  tie_step :
      (owed : String → ℕ) (id : String) (acc : Accumulators)
      → All (Owes (λ k. owed k + one_if (k == id))) acc
      → All (Owes owed) (change id (add_tie settings) acc)
  tie_step owed id acc =
      All-change (Owes (λ k. owed k + one_if (k == id))) (Owes owed) id (add_tie settings) acc
        (λ k a h. ground (arith, add-mul a.tied 1 settings.points_tie))

  runs_step :
      (scored faced conceded bowled : ℕ) (id : String) (acc : Accumulators)
      → All (Owes (λ k. 0)) acc
      → All (Owes (λ k. 0)) (change id (add_runs scored faced conceded bowled) acc)
  runs_step scored faced conceded bowled id acc =
      All-change (Owes (λ k. 0)) (Owes (λ k. 0)) id (add_runs scored faced conceded bowled) acc
        (λ k a h. ground arith)

  owed_away_home :
      (fixture : StandingsFixture) (acc : Accumulators)
      → All
          (Owes
            (λ k. (0 + one_if (k == fixture.home_team_id)) + one_if (k == fixture.away_team_id)))
          acc
      → All
          (Owes
            (λ k. (0 + one_if (k == fixture.away_team_id)) + one_if (k == fixture.home_team_id)))
          acc
  owed_away_home fixture [] h = tt
  owed_away_home fixture ((k, a) ∷ acc) (h, hs) = (ground arith, owed_away_home fixture acc hs)

  award_step :
      (fixture : StandingsFixture) (acc : Accumulators)
      → All
          (Owes
            (λ k. (0 + one_if (k == fixture.home_team_id)) + one_if (k == fixture.away_team_id)))
          acc
      → All (Owes (λ k. 0)) (award settings fixture acc)
  unfolding award
  award_step fixture acc h =
      let home = fixture.home_team_id in
      let away = fixture.away_team_id in
      elim (Bool-cases (is_text (winner_of fixture) home)) [
        | inl home_wins ↦ rw home_wins (
            loss_step (λ k. 0) away _
              (win_step (λ k. 0 + one_if (k == away)) home acc (owed_away_home fixture acc h)))
        | inr not_home ↦ elim (Bool-cases (is_text (winner_of fixture) away)) [
          | inl away_wins ↦
              rw (not_home, away_wins)
                (loss_step (λ k. 0) home _ (win_step (λ k. 0 + one_if (k == home)) away acc h))
          | inr tie ↦
              rw (not_home, tie)
                (tie_step (λ k. 0) away _
                  (tie_step (λ k. 0 + one_if (k == away)) home acc (owed_away_home fixture acc h)))
        ]
      ]

  result_step :
      (fixture : StandingsFixture) (result : Option StandingsResult) (acc : Accumulators)
      → All (Owes (λ k. 0)) acc
      → All (Owes (λ k. 0)) (add_result fixture result acc)
  unfolding add_result
  result_step fixture none acc h = h
  result_step fixture (some r) acc h =
      runs_step _ _ _ _ fixture.away_team_id _ (runs_step _ _ _ _ fixture.home_team_id acc h)

  play_step :
      (fixture : StandingsFixture) (acc : Accumulators)
      → All (Owes (λ k. 0)) acc
      → All (Owes (λ k. 0)) (play settings fixture acc)
  unfolding play
  play_step fixture acc h = elim (Bool-cases (both_known fixture acc)) [
    | inr unknown ↦ rw unknown h
    | inl known ↦ rw known (
        result_step fixture fixture.result _ (
          award_step fixture _ (
            game_step (λ k. 0 + one_if (k == fixture.home_team_id)) fixture.away_team_id _
              (game_step (λ k. 0) fixture.home_team_id acc h))))
  ]

  play_all_steps :
      (fixtures : List StandingsFixture) (acc : Accumulators)
      → All (Owes (λ k. 0)) acc
      → All (Owes (λ k. 0)) (play_all settings fixtures acc)
  unfolding play_all
  play_all_steps [] acc h = h
  play_all_steps (fixture ∷ fixtures) acc h = play_all_steps fixtures _ (play_step fixture acc h)

  set-IsBalanced :
      (id : String) (acc : Accumulators)
      → All (Owes (λ k. 0)) acc
      → All (Owes (λ k. 0)) (acc_set id empty_accumulator acc)
  set-IsBalanced id [] h = ((omega arith, omega arith), tt)
  set-IsBalanced id ((k, a) ∷ acc) (h, hs) = elim (Bool-cases (k == id)) [
    | inl here ↦ rw here ((omega arith, omega arith), hs)
    | inr there ↦ rw there (h, set-IsBalanced id acc hs)
  ]

  empty-IsBalanced :
      (teams : List StandingsTeam) (acc : Accumulators)
      → All (Owes (λ k. 0)) acc
      → All (Owes (λ k. 0)) (empty_table teams acc)
  unfolding empty_table
  empty-IsBalanced [] acc h = h
  empty-IsBalanced (team ∷ teams) acc h = empty-IsBalanced teams _ (set-IsBalanced team.id acc h)

  got-IsBalanced :
      (id : String) (acc : Accumulators)
      → All (Owes (λ k. 0)) acc
      → IsBalanced (get_or (acc_get id acc) empty_accumulator)
  got-IsBalanced id [] h = (omega arith, omega arith)
  got-IsBalanced id ((k, a) ∷ acc) (h, hs) = elim (Bool-cases (k == id)) [
    | inl here ↦ rw here (ground arith)
    | inr there ↦ rw there (got-IsBalanced id acc hs)
  ]

  rows-IsBalanced :
      (teams : List StandingsTeam) (acc : Accumulators)
      → All (Owes (λ k. 0)) acc
      → All (λ (row : StandingsRow). IsBalanced row.totals) (map (row_of acc) teams)
  rows-IsBalanced [] acc h = tt
  rows-IsBalanced (team ∷ teams) acc h = (got-IsBalanced team.id acc h, rows-IsBalanced teams acc h)

  -- In every row the games played are the games won, tied and lost, and the points are those of the
  -- games won and tied: also for a team that a fixture has playing itself, for a winner that played
  -- in neither side, for teams that are not listed and for teams listed twice.
  pub compute_standings-IsBalanced :
      (teams : List StandingsTeam) (fixtures : List StandingsFixture)
      → All
          (λ (row : StandingsRow). IsBalanced row.totals)
          (compute_standings teams fixtures settings)
  unfolding compute_standings
  compute_standings-IsBalanced teams fixtures =
      rows-IsBalanced teams _ (play_all_steps fixtures _ (empty-IsBalanced teams [] tt))
