-- ===== src/Events/Service/Ownership.antt =====
-- src/events/events-admin.service.ts (update): what a change of an event comes to.
use rac3011_api.Base.{
  any, text_eq, eq_iff, ℕ, String, ◌≡◌, refl, ap, ◌∙◌, inl, inr, true, false, not, ◌&&◌, Option,
  none, some, List, [], ◌∷◌, ◌++◌, ◌==◌, arith, map, is_some, if◌then◌else◌, get_or, Result, ok,
  err, forbidden, not_found, internal, HttpError, Bool-cases, Option-cases, is_empty, sym, ◌⊎◌,
}
use rac3011_api.Db.Updates.{is_some-find_first-update_many}
use rac3011_api.Effects.{purge_asset}
use rac3011_api.Access.Guard.{RequestContext}
use rac3011_api.Access.Scope.{ClubClient}
use rac3011_api.Events.Slug.Laws.{ends, text_eq→eq}
use rac3011_api.Events.Types.{EventRow, UpdateEventInput, Stores, World}
use rac3011_api.Events.Service.{
  EventEnv, Owner, slug_of, has_id, find_event, slugs_of, may_change, changes_owner, dropped_cover,
  dropped_photos, updated, next_slug, update,
}
use rac3011_api.Events.Service.Creation.{any-slugs, own_slug, unique_slug_returns}
use rac3011_api.Events.Service.Changes.{
  may_manage, change, changed, purged, Allowed, KeepsOwner, updated-changed, dropped-purged,
  may_change-Allowed, changes_owner-KeepsOwner,
}

abbrev pub owner_columns : EventRow → Owner
owner_columns r = record {
  is_district_event = r.is_district_event;
  club_id = r.club_id;
  project_key = r.project_key;
}

module _ {E C V R : Type 0} (stores : Stores E C V R) (db : ClubClient) (env : EventEnv E)
    (ctx : RequestContext) (id : String) (input : UpdateEventInput) where
  -- A new slug is the slug of no event, or the one that the event has.
  abbrev pub FreeSlug : EventRow → Option (List ℕ) → World E C V R → Type 0
  FreeSlug existing none w = Unit
  FreeSlug existing (some slug) w =
      (any (λ r. text_eq slug r.slug) (stores.events.rows w.events) ≡ false)
      ⊎ (slug ≡ existing.slug)

  own_slug-existing :
      (existing : EventRow) (w : World E C V R)
      → find_event stores db env id w ≡ some existing
      → own_slug stores db env (some existing.id) w ≡ some existing.slug
  own_slug-existing existing w found =
      let same : existing.id ≡ id =
        (eq_iff existing.id id).0
          (stores.events.find_first_holds (has_id stores db env id) w.events existing found) in
      ap (λ i. slug_of stores db env (find_event stores db env i w)) same
      ∙ ap (slug_of stores db env) found

  ends-FreeSlug :
      (existing : EventRow) (w : World E C V R) (slug : List ℕ)
      → find_event stores db env id w ≡ some existing
      → ends (slugs_of stores db env w) (own_slug stores db env (some existing.id) w) slug ≡ true
      → FreeSlug existing (some slug) w
  ends-FreeSlug existing w slug found free =
      let free' : ends (slugs_of stores db env w) (some existing.slug) slug ≡ true =
        ap (λ own. ends (slugs_of stores db env w) own slug)
          (sym (own_slug-existing existing w found))
        ∙ free in
      elim (Bool-cases (any (text_eq slug) (slugs_of stores db env w))) [
        | inr new ↦ inl (sym (any-slugs slug (stores.events.rows w.events)) ∙ new)
        | inl taken ↦ inr (sym (text_eq→eq existing.slug slug (ground (arith, free', taken))))
      ]

  -- The event is there, and the caller may change it this way.
  pub record Admitted (w : World E C V R) (existing : EventRow) (slug : Option (List ℕ))
      : Type 0 where
    pub found : stores.events.find_first (λ r. r.id == id) w.events ≡ some existing
    pub allowed : Allowed stores db env ctx input existing
    pub owner_allowed :
        (may_manage stores db env ctx input ≡ true) ⊎ KeepsOwner stores db env ctx input existing
    pub slug_free : FreeSlug existing slug w

  -- What has happened when a changed event `row` is returned.
  pub record Updated (w : World E C V R) (row : EventRow) (w' : World E C V R) : Type 0 where
    pub existing : EventRow
    pub slug : Option (List ℕ)
    pub admitted : Admitted w existing slug
    pub rows :
        stores.events.rows w'.events
        ≡ map
            (λ r. if r.id == id then changed stores db env ctx input slug r else r)
            (stores.events.rows w.events)
    pub rest : w' ≡ record w {
      events = w'.events;
      effects = w.effects ++ map purge_asset (purged stores db env ctx input existing);
    }
    pub returned : stores.events.find_first (λ r. r.id == id) w'.events ≡ some row

  -- The database does not take the changed row, but the assets are purged.
  pub record Unfit (w : World E C V R) (e : HttpError) (w' : World E C V R) : Type 0 where
    pub existing : EventRow
    pub slug : Option (List ℕ)
    pub admitted : Admitted w existing slug
    pub unfit : env.fits (changed stores db env ctx input slug existing) ≡ false
    pub error_is : e ≡ internal
    pub rest : w' ≡ record w {
      effects = w.effects ++ map purge_asset (purged stores db env ctx input existing);
    }

  abbrev pub Outcome : World E C V R → Result EventRow → World E C V R → Type 0
  Outcome w (ok row) w' = Updated w row w'
  Outcome w (err e) w' = (w' ≡ w) ⊎ Unfit w e w'

  of_result :
      (w w' : World E C V R) (result : Result EventRow) (r : Result EventRow × World E C V R)
      → r ≡ (result, w')
      → Outcome w result w'
      → Outcome w r.0 r.1
  of_result w w' result r e h = rw e h

  -- The world after the assets are purged, and the one after the row is written as well.
  abbrev after_purge : EventRow → World E C V R → World E C V R
  after_purge existing w = record w {
    effects =
        w.effects
        ++ map purge_asset (
            dropped_cover stores db env input existing
            ++ dropped_photos stores db env input existing);
  }

  abbrev after : EventRow → Option (List ℕ) → World E C V R → World E C V R
  after existing slug w = record (after_purge existing w) {
    events =
        stores.events.update_many (has_id stores db env id) (change stores db env ctx input slug)
          w.events;
  }

  module _ (w : World E C V R) where
    abbrev handled : Result EventRow × World E C V R
    handled = update stores db env ctx id input w

    update-missing : find_event stores db env id w ≡ none → handled ≡ (err not_found, w)
    unfolding update
    update-missing h = ground (arith, h)

    module _ (existing : EventRow) (found : find_event stores db env id w ≡ some existing) where
      update-hidden :
          may_change stores db env ctx.access existing ≡ false → handled ≡ (err not_found, w)
      unfolding update
      update-hidden h = ground (arith, found, h)

      module _ (allowed : may_change stores db env ctx.access existing ≡ true) where
        update-forbidden :
            (not (may_manage stores db env ctx input) && changes_owner stores db env input existing)
              ≡ true
            → handled ≡ (err forbidden, w)
        unfolding update
        update-forbidden h = ground (arith, found, allowed, h)

        next_slug_returns :
            (slug : Option (List ℕ)) × (next_slug stores db env input existing w ≡ (ok slug, w))
            × FreeSlug existing slug w
        unfolding next_slug
        next_slug_returns = elim (Bool-cases (is_empty (get_or input.slug []))) [
          | inl kept ↦ (none, ground (arith, kept), tt)
          | inr asked ↦
              let (slug, result, free) =
                unique_slug_returns stores db env (get_or input.slug []) (some existing.id) w in
              (some slug, ground (arith, asked, result), ends-FreeSlug existing w slug found free)
        ]

        module _
            (owner_allowed : (not (may_manage stores db env ctx input)
                && changes_owner stores db env input existing)
              ≡ false)
            (slug : Option (List ℕ))
            (named : next_slug stores db env input existing w ≡ (ok slug, w)) where
          update-unfit :
              env.fits (change stores db env ctx input slug existing) ≡ false
              → handled ≡ (err internal, after_purge existing w)
          unfolding update
          update-unfit h = ground (arith, found, allowed, owner_allowed, named, h)

          update-done :
              (row : EventRow)
              → env.fits (change stores db env ctx input slug existing) ≡ true
              → find_event stores db env id (after existing slug w) ≡ some row
              → handled ≡ (ok row, after existing slug w)
          unfolding update
          update-done row fits h = ground (arith, found, allowed, owner_allowed, named, fits, h)

          still_there : is_some (find_event stores db env id (after existing slug w)) ≡ true
          unfolding updated
          still_there =
              is_some-find_first-update_many stores.events (has_id stores db env id)
                (change stores db env ctx input slug) (λ r. refl) w.events
              ∙ ap is_some found

          update-admitted : Admitted w existing slug → Outcome w handled.0 handled.1
          update-admitted admitted =
              elim (Bool-cases (env.fits (change stores db env ctx input slug existing))) [
                | inr unfit ↦
                    of_result w (after_purge existing w) (err internal) _ (update-unfit unfit) (
                      inr record {
                        existing = existing;
                        slug = slug;
                        admitted = admitted;
                        unfit =
                            ap env.fits
                              (sym (updated-changed stores db env ctx input slug existing))
                            ∙ unfit;
                        error_is = refl;
                        rest =
                            ap (λ urls. record w { effects = w.effects ++ map purge_asset urls })
                              (dropped-purged stores db env ctx input existing);
                      })
                | inl fits ↦
                    elim (Option-cases (find_event stores db env id (after existing slug w))) [
                      | inl lost ↦ absurd (ground (arith, lost, still_there))
                      | inr (row, returned) ↦
                          of_result w (after existing slug w) (ok row) _
                            (update-done row fits returned)
                            record {
                              existing = existing;
                              slug = slug;
                              admitted = admitted;
                              rows =
                                  stores.events.rows_update_many (has_id stores db env id)
                                    (change stores db env ctx input slug) w.events
                                  ∙ (λ i.
                                      map
                                        (λ r.
                                          if r.id == id
                                          then updated-changed stores db env ctx input slug r i
                                          else r)
                                        (stores.events.rows w.events));
                              rest =
                                  ap
                                    (λ urls. record w {
                                      events = (after existing slug w).events;
                                      effects = w.effects ++ map purge_asset urls;
                                    })
                                    (dropped-purged stores db env ctx input existing);
                              returned = returned;
                            }
                    ]
              ]

    -- A change of an event throws and changes nothing, or it was found and the caller may change it,
    -- and may change its owner if the owner was to change. Then the row of that id, and no other,
    -- has the given columns (its club, project and district flag only for a manager of events), the
    -- time, and a slug that no other event has, and the assets that it dropped are purged; or the
    -- database does not take the changed row, and it throws and changes no row, with these assets
    -- purged all the same.
    pub update-Outcome : Outcome w handled.0 handled.1
    update-Outcome = elim (Option-cases (find_event stores db env id w)) [
      | inl missing ↦ of_result w w (err not_found) _ (update-missing missing) (inl refl)
      | inr (existing, found) ↦ elim (Bool-cases (may_change stores db env ctx.access existing)) [
        | inr hidden ↦
            of_result w w (err not_found) _ (update-hidden existing found hidden) (inl refl)
        | inl allowed ↦
            elim (Bool-cases (
              not (may_manage stores db env ctx input)
              && changes_owner stores db env input existing)) [
                | inl taken ↦
                    of_result w w (err forbidden) _ (update-forbidden existing found allowed taken)
                      (inl refl)
                | inr kept ↦
                    let (slug, named, free) = next_slug_returns existing found allowed in
                    update-admitted existing found allowed kept slug named record {
                      found = found;
                      allowed = may_change-Allowed stores db env ctx input existing allowed;
                      owner_allowed =
                          changes_owner-KeepsOwner stores db env ctx input existing kept;
                      slug_free = free;
                    }
              ]
      ]
    ]

  owners-change :
      (slug : Option (List ℕ)) (rows : List EventRow)
      → may_manage stores db env ctx input ≡ false
      → map owner_columns
          (map (λ r. if r.id == id then changed stores db env ctx input slug r else r) rows)
        ≡ map owner_columns rows
  owners-change slug [] h = refl
  owners-change slug (r ∷ rows) h = elim (Bool-cases (r.id == id)) [
    | inl here ↦ ground (arith, h, here, owners-change slug rows)
    | inr other ↦ ground (arith, h, other, owners-change slug rows)
  ]

  owners_of :
      (w w' : World E C V R) (result : Result EventRow)
      → Outcome w result w'
      → may_manage stores db env ctx input ≡ false
      → map owner_columns (stores.events.rows w'.events)
        ≡ map owner_columns (stores.events.rows w.events)
  owners_of w w' (err e) (inl same) h =
      ap (λ v. map owner_columns (stores.events.rows v.events)) same
  owners_of w w' (err e) (inr unfit) h =
      ap (λ v. map owner_columns (stores.events.rows v.events)) unfit.rest
  owners_of w w' (ok row) done h =
      ap (map owner_columns) done.rows ∙ owners-change done.slug (stores.events.rows w.events) h

  -- A change by someone who does not manage events leaves the club, the project and the district flag
  -- of every event as they are.
  pub update-owners :
      (w : World E C V R)
      → may_manage stores db env ctx input ≡ false
      → map owner_columns (stores.events.rows (update stores db env ctx id input w).1.events)
        ≡ map owner_columns (stores.events.rows w.events)
  update-owners w = owners_of w _ _ (update-Outcome w)
