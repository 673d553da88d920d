-- ===== src/Events/Service/Authority.antt =====
-- src/events/events-admin.service.ts (create): whose an event may be.
use rac3011_api.Base.{
  ◌≡◌, refl, ◌⊎◌, inl, inr, Bool, true, false, ◌&&◌, ◌||◌, none, some, arith, truthy?, get_or,
  Result, Result-cases, ok, err, bad_request, forbidden, not_found, Bool-cases, Option-cases,
}
use rac3011_api.Access.Guard.{RequestContext, granted}
use rac3011_api.Access.Scope.{ClubClient, can_access_club, assert_can_access_club}
use rac3011_api.Events.Types.{CreateEventInput, Member, Stores, World}
use rac3011_api.Events.Gate.{has_grant}
use rac3011_api.Events.Service.{
  EventEnv, Owner, other_club, owner_by_manager, owner_by_club, owner_of,
}

-- Whether an owner is a club, its id not empty, or the district.
abbrev pub is_placed : Owner → Bool
is_placed owner = owner.is_district_event || truthy? owner.club_id

module _ {E C V R : Type 0} (stores : Stores E C V R) (db : ClubClient) (env : EventEnv E)
    (ctx : RequestContext) (input : CreateEventInput) where
  -- The owner that the log of a club may give: the caller's own club.
  pub record OwnClub (owner : Owner) : Type 0 where
    pub profile : Member
    pub profile_of_caller : env.get_profile ctx.user_id ≡ some profile
    pub may_log : can_access_club db ctx.access "club_events:log" profile.club_id ≡ true
    pub owner_is :
        owner
        ≡ record { is_district_event = false; club_id = some profile.club_id; project_key = none }

  abbrev pub Authorised : Owner → Type 0
  Authorised owner =
      ((ctx.access.is_super_admin || granted ctx.access "events:manage") ≡ true) ⊎ OwnClub owner

  abbrev pub Decided : World E C V R → Result Owner → World E C V R → Type 0
  Decided w (err e) w' = w' ≡ w
  Decided w (ok owner) w' = (w' ≡ w) × Authorised owner

  pub Decided-of :
      (w : World E C V R) (result : Result Owner) (r : Result Owner × World E C V R)
      → r ≡ (result, w)
      → Decided w result w
      → Decided w r.0 r.1
  Decided-of w result r e h = rw e h

  module _ (w : World E C V R) where
    abbrev by_club : Result Owner × World E C V R
    by_club = owner_by_club stores db env ctx input w

    no_log : has_grant ctx.access "club_events:log" ≡ false → by_club ≡ (err forbidden, w)
    unfolding owner_by_club
    no_log h = ground arith

    module _ (log : has_grant ctx.access "club_events:log" ≡ true) where
      district_by_club : get_or input.is_district_event false ≡ true → by_club ≡ (err forbidden, w)
      unfolding owner_by_club
      district_by_club h = ground arith

      module _ (no_district : get_or input.is_district_event false ≡ false) where
        no_profile : env.get_profile ctx.user_id ≡ none → by_club ≡ (err bad_request, w)
        unfolding owner_by_club
        no_profile h = ground arith

        module _ (profile : Member) (mine : env.get_profile ctx.user_id ≡ some profile) where
          foreign_club :
              other_club input.club_id profile.club_id ≡ true → by_club ≡ (err not_found, w)
          unfolding owner_by_club
          foreign_club h = ground arith

          module _ (own : other_club input.club_id profile.club_id ≡ false) where
            out_of_scope :
                can_access_club db ctx.access "club_events:log" profile.club_id ≡ false
                → by_club ≡ (err not_found, w)
            unfolding owner_by_club assert_can_access_club
            out_of_scope h = ground arith

            in_scope :
                can_access_club db ctx.access "club_events:log" profile.club_id ≡ true
                → by_club ≡ (
                  ok record {
                    is_district_event = false;
                    club_id = some profile.club_id;
                    project_key = none;
                  },
                  w,
                )
            unfolding owner_by_club assert_can_access_club
            in_scope h = ground arith

            own_club-Decided : Decided w by_club.0 by_club.1
            own_club-Decided =
                elim (Bool-cases
                  (can_access_club db ctx.access "club_events:log" profile.club_id)) [
                    | inr out ↦ Decided-of w (err not_found) _ (out_of_scope out) refl
                    | inl may ↦ Decided-of w (ok _) _ (in_scope may) (
                      refl,
                      inr record {
                        profile = profile;
                        profile_of_caller = mine;
                        may_log = may;
                        owner_is = refl;
                      },
                    )
                  ]

    by_club-Decided : Decided w by_club.0 by_club.1
    by_club-Decided = elim (Bool-cases (has_grant ctx.access "club_events:log")) [
      | inr none_granted ↦ Decided-of w (err forbidden) _ (no_log none_granted) refl
      | inl log ↦ elim (Bool-cases (get_or input.is_district_event false)) [
        | inl district ↦ Decided-of w (err forbidden) _ (district_by_club log district) refl
        | inr club ↦ elim (Option-cases (env.get_profile ctx.user_id)) [
          | inl missing ↦ Decided-of w (err bad_request) _ (no_profile log club missing) refl
          | inr (profile, mine) ↦ elim (Bool-cases (other_club input.club_id profile.club_id)) [
            | inl other ↦
                Decided-of w (err not_found) _ (foreign_club log club profile mine other) refl
            | inr own ↦ own_club-Decided log club profile mine own
          ]
        ]
      ]
    ]

    abbrev by_manager : Result Owner × World E C V R
    by_manager = owner_by_manager stores db env ctx.access input w

    abbrev managed : Owner
    managed = record {
      is_district_event = get_or input.is_district_event true;
      club_id = input.club_id;
      project_key = input.project_key;
    }

    by_manager-Decided :
        has_grant ctx.access "events:manage" ≡ true → Decided w by_manager.0 by_manager.1
    unfolding owner_by_manager
    by_manager-Decided manage =
        elim (Bool-cases (get_or input.is_district_event true && truthy? input.club_id)) [
          | inr free ↦ Decided-of w (ok managed) _ (ground (arith, free)) (refl, inl manage)
          | inl named ↦
              elim (Result-cases
                (assert_can_access_club db ctx.access "events:manage" (get_or input.club_id ""))) [
                  | inl (e, out) ↦ Decided-of w (err e) _ (ground (arith, named, out)) refl
                  | inr (_, may) ↦
                      Decided-of w (ok managed) _ (ground (arith, named, may)) (refl, inl manage)
                ]
        ]

    -- Who owns a new event is decided by a manager, or it is the club of the caller.
    pub owner_of-Decided :
        let (result, w') = owner_of stores db env ctx input w in Decided w result w'
    unfolding owner_of
    owner_of-Decided = elim (Bool-cases (has_grant ctx.access "events:manage")) [
      | inl manage ↦ rw manage (by_manager-Decided manage)
      | inr not_manage ↦ rw not_manage by_club-Decided
    ]
