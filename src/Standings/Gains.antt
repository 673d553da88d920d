-- ===== src/Standings/Gains.antt =====
-- What one fixture adds to the games and the wins of an entry.
use rac3011_api.Base.{
  ℕ, ◌+◌, ◌≡◌, refl, String, Bool, true, false, ◌&&◌, ◌||◌, Option, none, some, List, [], ◌∷◌,
  if◌then◌else◌, ◌==◌, arith, inl, inr, Bool-cases, Option-cases, is_text, is_some, any, eq_iff,
  ◌∙◌,
}
use rac3011_api.Standings.{
  StandingsTeam, StandingsFixture, StandingsSettings, StandingsResult, Accumulator, Accumulators,
  change, acc_get, add_game, add_win, add_tie, add_loss, award, add_result, play, winner_of,
  both_known,
}

abbrev pub one_if : Bool → ℕ
one_if true = 1
one_if false = 0

abbrev pub listed : List StandingsTeam → String → Bool
listed teams id = any (λ team. team.id == id) teams

-- A fixture counts if both of its teams are listed.
abbrev pub counts : List StandingsTeam → StandingsFixture → Bool
counts teams fixture = listed teams fixture.home_team_id && listed teams fixture.away_team_id

abbrev pub games_in : String → StandingsFixture → ℕ
games_in id fixture = one_if (id == fixture.home_team_id) + one_if (id == fixture.away_team_id)

-- The winner is one of the two teams, and is this one.
abbrev pub wins_in : String → StandingsFixture → ℕ
wins_in id fixture = one_if (
    (is_text (winner_of fixture) fixture.home_team_id
      || is_text (winner_of fixture) fixture.away_team_id)
    && is_text (winner_of fixture) id)

abbrev pub total : List StandingsTeam → (StandingsFixture → ℕ) → List StandingsFixture → ℕ
total teams g [] = 0
total teams g (fixture ∷ fixtures) =
    (if counts teams fixture then g fixture else 0) + total teams g fixtures

-- The entry of `k` gains `games` games and `wins` wins.
abbrev pub Gains : String → ℕ → ℕ → Accumulators → Accumulators → Type 0
Gains k games wins acc acc' =
    (a : Accumulator)
    → acc_get k acc ≡ some a
    → (a' : Accumulator) × (acc_get k acc' ≡ some a')
      × (a'.played ≡ a.played + games)
      × (a'.won ≡ a.won + wins)

acc_get-change :
    (k id : String) (f : Accumulator → Accumulator) (acc : Accumulators) (a : Accumulator)
    → acc_get k acc ≡ some a
    → acc_get k (change id f acc) ≡ some (if k == id then f a else a)
acc_get-change k id f [] a h = absurd (cc)
acc_get-change k id f ((j, b) ∷ acc) a h = elim (Bool-cases (j == k)) [
  | inl here ↦ ground (arith, h, here, eq_iff j k)
  | inr there ↦ rw there (acc_get-change k id f acc a (ground arith))
]

is_some-acc_get-change :
    (k id : String) (f : Accumulator → Accumulator) (acc : Accumulators)
    → is_some (acc_get k (change id f acc)) ≡ is_some (acc_get k acc)
is_some-acc_get-change k id f [] = refl
is_some-acc_get-change k id f ((j, b) ∷ acc) = ground (arith, is_some-acc_get-change k id f acc)

pub then-Gains :
    (k : String) (games wins games' wins' : ℕ) (acc acc' acc'' : Accumulators)
    → Gains k games wins acc acc'
    → Gains k games' wins' acc' acc''
    → Gains k (games + games') (wins + wins') acc acc''
then-Gains k games wins games' wins' acc acc' acc'' g h a found =
    let (a', found', p, w) = g a found in
    let (a'', found'', p', w') = h a' found' in (a'', found'', omega arith, omega arith)

change-Gains :
    (k id : String) (f : Accumulator → Accumulator) (games wins : ℕ) (acc : Accumulators)
    → ((a : Accumulator) → (f a).played ≡ a.played + games)
    → ((a : Accumulator) → (f a).won ≡ a.won + wins)
    → Gains k (if k == id then games else 0) (if k == id then wins else 0) acc (change id f acc)
change-Gains k id f games wins acc hp hw a found = (
  (if k == id then f a else a),
  acc_get-change k id f acc a found,
  ground (arith, hp a),
  ground (arith, hw a),
)

module _ (settings : StandingsSettings) (k : String) (fixture : StandingsFixture) where
  game-Gains :
      (acc : Accumulators)
      → Gains k
          (games_in k fixture)
          0
          acc
          (change fixture.away_team_id add_game (change fixture.home_team_id add_game acc))
  game-Gains acc a found =
      let acc' = change fixture.home_team_id add_game acc in
      let (b, got, p, w) =
        then-Gains k _ _ _ _ acc acc' _
          (change-Gains k fixture.home_team_id add_game 1 0 acc (λ x. refl) (λ x. omega arith))
          (change-Gains k fixture.away_team_id add_game 1 0 acc' (λ x. refl) (λ x. omega arith)) a
          found in
      (b, got, ground arith, ground arith)

  -- Two entries change, the second of them with no effect on games and wins of either.
  two-Gains :
      (id other : String) (f g : Accumulator → Accumulator) (wins : ℕ) (acc : Accumulators)
      → ((a : Accumulator) → (f a).played ≡ a.played)
      → ((a : Accumulator) → (f a).won ≡ a.won + wins)
      → ((a : Accumulator) → (g a).played ≡ a.played)
      → ((a : Accumulator) → (g a).won ≡ a.won)
      → Gains k 0 (if k == id then wins else 0) acc (change other g (change id f acc))
  two-Gains id other f g wins acc fp fw gp gw a found =
      let acc' = change id f acc in
      let (b, got, p, w) =
        then-Gains k _ _ _ _ acc acc' _
          (change-Gains k id f 0 wins acc (λ x. ground (arith, fp x)) fw)
          (change-Gains k other g 0 0 acc' (λ x. ground (arith, gp x)) (λ x. ground (arith, gw x)))
          a found in
      (b, got, ground arith, ground arith)

  won_by :
      (id : String)
      → is_text (winner_of fixture) id ≡ true
      → is_text (winner_of fixture) k ≡ (k == id)
  won_by id h = elim (Option-cases (winner_of fixture)) [
    | inl nobody ↦ absurd (ground (arith, nobody, h))
    | inr (t, won) ↦ ground (arith, h, won, eq_iff t id, eq_iff t k, eq_iff k id)
  ]

  award-Gains :
      (acc : Accumulators) → Gains k 0 (wins_in k fixture) acc (award settings fixture acc)
  unfolding award
  award-Gains acc a found =
      let home = fixture.home_team_id in
      let away = fixture.away_team_id in
      elim (Bool-cases (is_text (winner_of fixture) home)) [
        | inl home_wins ↦ rw home_wins (
            let (b, got, p, w) =
              two-Gains home away (add_win settings) add_loss 1 acc (λ x. refl) (λ x. refl)
                (λ x. refl) (λ x. refl) a found in
            (b, got, p, ground (arith, won_by home home_wins, w)))
        | inr not_home ↦ elim (Bool-cases (is_text (winner_of fixture) away)) [
          | inl away_wins ↦
              rw (not_home, away_wins)
                (let (b, got, p, w) =
                    two-Gains away home (add_win settings) add_loss 1 acc (λ x. refl) (λ x. refl)
                      (λ x. refl) (λ x. refl) a found in
                  (b, got, p, ground (arith, won_by away away_wins, w)))
          | inr tie ↦
              rw (not_home, tie)
                (let (b, got, p, w) =
                    two-Gains home away (add_tie settings) (add_tie settings) 0 acc (λ x. refl)
                      (λ x. omega arith) (λ x. refl) (λ x. refl) a found in
                  (b, got, p, ground (arith, w)))
        ]
      ]

  result-Gains :
      (result : Option StandingsResult) (acc : Accumulators)
      → Gains k 0 0 acc (add_result fixture result acc)
  unfolding add_result
  result-Gains none acc a found = (a, found, omega arith, omega arith)
  result-Gains (some r) acc a found =
      let (b, got, p, w) =
        two-Gains fixture.home_team_id fixture.away_team_id _ _ 0 acc (λ x. refl) (λ x. omega arith)
          (λ x. refl) (λ x. refl) a found in
      (b, got, p, ground arith)

  pub play-Gains :
      (acc : Accumulators)
      → both_known fixture acc ≡ true
      → Gains k (games_in k fixture) (wins_in k fixture) acc (play settings fixture acc)
  unfolding play
  play-Gains acc known a found =
      let acc1 = change fixture.away_team_id add_game (change fixture.home_team_id add_game acc) in
      let (b, got, p, w) =
        then-Gains k _ _ _ _ acc acc1 _ (game-Gains acc)
          (then-Gains k _ _ _ _ acc1 (award settings fixture acc1) _ (award-Gains acc1)
            (result-Gains fixture.result (award settings fixture acc1)))
          a found in
      rw known (b, got, ground arith, ground arith)

  is_some-award :
      (acc : Accumulators)
      → is_some (acc_get k (award settings fixture acc)) ≡ is_some (acc_get k acc)
  unfolding award
  is_some-award acc =
      let home = fixture.home_team_id in
      let away = fixture.away_team_id in
      elim (Bool-cases (is_text (winner_of fixture) home)) [
        | inl home_wins ↦
            rw home_wins (is_some-acc_get-change k away _ _ ∙ is_some-acc_get-change k home _ _)
        | inr not_home ↦ elim (Bool-cases (is_text (winner_of fixture) away)) [
          | inl away_wins ↦
              rw (not_home, away_wins)
                (is_some-acc_get-change k home _ _ ∙ is_some-acc_get-change k away _ _)
          | inr tie ↦
              rw (not_home, tie)
                (is_some-acc_get-change k away _ _ ∙ is_some-acc_get-change k home _ _)
        ]
      ]

  is_some-add_result :
      (result : Option StandingsResult) (acc : Accumulators)
      → is_some (acc_get k (add_result fixture result acc)) ≡ is_some (acc_get k acc)
  unfolding add_result
  is_some-add_result none acc = refl
  is_some-add_result (some r) acc = is_some-acc_get-change k _ _ _ ∙ is_some-acc_get-change k _ _ _

  pub is_some-play :
      (acc : Accumulators)
      → is_some (acc_get k (play settings fixture acc)) ≡ is_some (acc_get k acc)
  unfolding play
  is_some-play acc = elim (Bool-cases (both_known fixture acc)) [
    | inr unknown ↦ rw unknown refl
    | inl known ↦ rw known (
        is_some-add_result fixture.result _
        ∙ is_some-award _
        ∙ is_some-acc_get-change k fixture.away_team_id _ _
        ∙ is_some-acc_get-change k fixture.home_team_id _ _)
  ]
