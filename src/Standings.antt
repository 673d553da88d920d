-- ===== src/Standings.antt =====
-- src/subdomains/rcl/standings.ts: the table of the league. Overs are given in tenths (4.3 overs are
-- 43), so that they are whole numbers. The net run rate, which is floating-point arithmetic, and the
-- sorting by it are left out.
pub mod Laws
pub mod Gains
pub mod Counts
pub mod Tests
use rac3011_api.Base.{
  ℕ, ◌+◌, ◌*◌, ◌/◌, ◌%◌, String, Bool, true, false, ◌&&◌, Option, none, some, List, [], ◌∷◌, map,
  if◌then◌else◌, ◌==◌, is_some, is_text, get_or,
}

unfoldable pub overs_to_balls : ℕ → ℕ
overs_to_balls tenths = (tenths / 10) * 6 + tenths % 10

pub record StandingsTeam : Type 0 where
  pub id : String
  pub name : String

pub record StandingsResult : Type 0 where
  pub home_runs : ℕ
  pub home_overs : ℕ
  pub away_runs : ℕ
  pub away_overs : ℕ
  pub winner_team_id : Option String

pub record StandingsFixture : Type 0 where
  pub home_team_id : String
  pub away_team_id : String
  pub result : Option StandingsResult

pub record StandingsSettings : Type 0 where
  pub points_win : ℕ
  pub points_tie : ℕ

pub record Accumulator : Type 0 where
  pub played : ℕ
  pub won : ℕ
  pub tied : ℕ
  pub lost : ℕ
  pub points : ℕ
  pub runs_for : ℕ
  pub balls_faced : ℕ
  pub runs_against : ℕ
  pub balls_bowled : ℕ

pub record StandingsRow : Type 0 where
  pub team_id : String
  pub team_name : String
  pub totals : Accumulator

abbrev pub empty_accumulator : Accumulator
empty_accumulator = record {
  played = 0;
  won = 0;
  tied = 0;
  lost = 0;
  points = 0;
  runs_for = 0;
  balls_faced = 0;
  runs_against = 0;
  balls_bowled = 0;
}

abbrev pub Accumulators : Type 0
Accumulators = List (String × Accumulator)

-- `acc.set(id, a)`
abbrev pub acc_set : String → Accumulator → Accumulators → Accumulators
acc_set id a [] = (id, a) ∷ []
acc_set id a ((key, old) ∷ acc) =
    if key == id then (key, a) ∷ acc else (key, old) ∷ acc_set id a acc

-- `acc.get(id)`
abbrev pub acc_get : String → Accumulators → Option Accumulator
acc_get id [] = none
acc_get id ((key, a) ∷ acc) = if key == id then some a else acc_get id acc

-- A write to the object that `acc.get(id)` is: keys are different, and two reads of one key are the
-- same object.
abbrev pub change : String → (Accumulator → Accumulator) → Accumulators → Accumulators
change id f [] = []
change id f ((key, a) ∷ acc) = (key, if key == id then f a else a) ∷ change id f acc

unfoldable pub empty_table : List StandingsTeam → Accumulators → Accumulators
empty_table [] acc = acc
empty_table (team ∷ teams) acc = empty_table teams (acc_set team.id empty_accumulator acc)

abbrev pub add_game : Accumulator → Accumulator
add_game a = record a { played = a.played + 1 }

abbrev pub add_win : StandingsSettings → Accumulator → Accumulator
add_win settings a = record a { won = a.won + 1; points = a.points + settings.points_win }

abbrev pub add_tie : StandingsSettings → Accumulator → Accumulator
add_tie settings a = record a { tied = a.tied + 1; points = a.points + settings.points_tie }

abbrev pub add_loss : Accumulator → Accumulator
add_loss a = record a { lost = a.lost + 1 }

abbrev pub add_runs : ℕ → ℕ → ℕ → ℕ → Accumulator → Accumulator
add_runs scored faced conceded bowled a = record a {
  runs_for = a.runs_for + scored;
  balls_faced = a.balls_faced + faced;
  runs_against = a.runs_against + conceded;
  balls_bowled = a.balls_bowled + bowled;
}

-- `fixture.result?.winnerTeamId ?? null`
abbrev pub winner_of : StandingsFixture → Option String
winner_of fixture = elim fixture.result [ none ↦ none | some result ↦ result.winner_team_id ]

-- The three branches.
unfoldable pub award : StandingsSettings → StandingsFixture → Accumulators → Accumulators
award settings fixture acc =
    if is_text (winner_of fixture) fixture.home_team_id
    then change fixture.away_team_id add_loss (change fixture.home_team_id (add_win settings) acc)
    else if is_text (winner_of fixture) fixture.away_team_id
    then change fixture.home_team_id add_loss (change fixture.away_team_id (add_win settings) acc)
    else change fixture.away_team_id (add_tie settings)
        (change fixture.home_team_id (add_tie settings) acc)

-- `if (fixture.result)`
unfoldable pub add_result : StandingsFixture → Option StandingsResult → Accumulators → Accumulators
unfolding overs_to_balls
add_result fixture none acc = acc
add_result fixture (some r) acc =
    let home_balls = overs_to_balls r.home_overs in
    let away_balls = overs_to_balls r.away_overs in
    change fixture.away_team_id (add_runs r.away_runs away_balls r.home_runs home_balls)
      (change fixture.home_team_id (add_runs r.home_runs home_balls r.away_runs away_balls) acc)

abbrev pub both_known : StandingsFixture → Accumulators → Bool
both_known fixture acc =
    is_some (acc_get fixture.home_team_id acc) && is_some (acc_get fixture.away_team_id acc)

-- One turn of the loop over the fixtures.
unfoldable pub play : StandingsSettings → StandingsFixture → Accumulators → Accumulators
play settings fixture acc =
    if both_known fixture acc
    then add_result fixture fixture.result (
        award settings fixture
          (change fixture.away_team_id add_game (change fixture.home_team_id add_game acc)))
    else acc

unfoldable pub play_all : StandingsSettings → List StandingsFixture → Accumulators → Accumulators
play_all settings [] acc = acc
play_all settings (fixture ∷ fixtures) acc = play_all settings fixtures (play settings fixture acc)

abbrev pub row_of : Accumulators → StandingsTeam → StandingsRow
row_of acc team = record {
  team_id = team.id;
  team_name = team.name;
  totals = get_or (acc_get team.id acc) empty_accumulator;
}

-- The rows before they are sorted.
unfoldable pub compute_standings :
    List StandingsTeam → List StandingsFixture → StandingsSettings → List StandingsRow
compute_standings teams fixtures settings =
    let acc = play_all settings fixtures (empty_table teams []) in map (row_of acc) teams
