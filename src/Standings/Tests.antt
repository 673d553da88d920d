-- ===== src/Standings/Tests.antt =====
-- Standings of a small league, and instances of the theorems on them.
use rac3011_api.Base.{ℕ, String, ◌≡◌, refl, none, some, List, [], ◌∷◌, All}
use rac3011_api.Standings.{
  StandingsTeam, StandingsFixture, StandingsSettings, StandingsRow, Accumulator, overs_to_balls,
  empty_table, award, add_result, play, play_all, compute_standings,
}
use rac3011_api.Standings.Laws.{IsBalanced, compute_standings-IsBalanced}
use rac3011_api.Standings.Gains.{games_in, wins_in, total}
use rac3011_api.Standings.Counts.{compute_standings-totals}

run : Unit {0}
unfolding overs_to_balls empty_table award add_result play play_all compute_standings
run = tt

overs : overs_to_balls 43 ≡ 27
unfolding run
overs = refl

abbrev settings : StandingsSettings
settings = record { points_win = 2; points_tie = 1 }

abbrev team : String → StandingsTeam
team id = record { id = id; name = id }

abbrev teams : List StandingsTeam
teams = team "a" ∷ team "b" ∷ team "c" ∷ []

-- a beats b, b and c have no result yet, and a fixture of a team that is not listed.
abbrev fixtures : List StandingsFixture
fixtures =
    record {
      home_team_id = "a";
      away_team_id = "b";
      result = some (record {
        home_runs = 50;
        home_overs = 43;
        away_runs = 40;
        away_overs = 60;
        winner_team_id = some "a";
      });
    }
    ∷ record { home_team_id = "b"; away_team_id = "c"; result = none }
    ∷ record { home_team_id = "a"; away_team_id = "z"; result = none }
    ∷ []

abbrev totals : ℕ → ℕ → ℕ → ℕ → ℕ → Accumulator
totals played won tied lost points = record {
  played = played;
  won = won;
  tied = tied;
  lost = lost;
  points = points;
  runs_for = 0;
  balls_faced = 0;
  runs_against = 0;
  balls_bowled = 0;
}

-- A fixture without a result counts as a tie.
league :
    compute_standings teams fixtures settings
    ≡ record {
      team_id = "a";
      team_name = "a";
      totals = record (totals 1 1 0 0 2) {
        runs_for = 50;
        balls_faced = 27;
        runs_against = 40;
        balls_bowled = 36;
      };
    }
      ∷ record {
        team_id = "b";
        team_name = "b";
        totals = record (totals 2 0 1 1 1) {
          runs_for = 40;
          balls_faced = 36;
          runs_against = 50;
          balls_bowled = 27;
        };
      }
      ∷ record { team_id = "c"; team_name = "c"; totals = totals 1 0 1 0 1 }
      ∷ []
unfolding run
league = refl

compute_standings-IsBalanced_example :
    All
      (λ (row : StandingsRow). IsBalanced settings row.totals)
      (compute_standings teams fixtures settings)
compute_standings-IsBalanced_example = compute_standings-IsBalanced settings teams fixtures

compute_standings-totals_example :
    All
      (λ (row : StandingsRow).
        (row.totals.played ≡ total teams (games_in row.team_id) fixtures)
        × (row.totals.won ≡ total teams (wins_in row.team_id) fixtures))
      (compute_standings teams fixtures settings)
compute_standings-totals_example = compute_standings-totals settings teams fixtures
