-- ===== src/Events/Service/Creation.antt =====
-- src/events/events-admin.service.ts (uniqueSlug, create): a new event has a slug of its own.
use rac3011_api.Base.{
  ℕ, suc, String, ◌≡◌, refl, map, true, false, Option, none, some, List, [], ◌∷◌, ◌++◌, arith, any,
  length, Result, ok, err, text_eq, get_or,
}
use rac3011_api.Access.Guard.{RequestContext}
use rac3011_api.Access.Scope.{ClubClient}
use rac3011_api.Events.Slug.{slugify, free_slug}
use rac3011_api.Events.Slug.Laws.{ends, free_slug-ends}
use rac3011_api.Events.Types.{EventRow, CreateEventInput, Stores, World}
use rac3011_api.Events.Service.{EventEnv, Owner, slugs_of, find_event, slug_of, unique_slug}
use rac3011_api.Events.Service.Authority.{is_placed, Authorised}

pub any-slugs :
    (slug : List ℕ) (rows : List EventRow)
    → any (text_eq slug) (map EventRow.slug rows) ≡ any (λ r. text_eq slug r.slug) rows
any-slugs slug [] = refl
any-slugs slug (r ∷ rows) = ground (arith, any-slugs slug rows)

module _ {E C V R : Type 0} (stores : Stores E C V R) (db : ClubClient) (env : EventEnv E) where
  -- The slug of the event that is left out.
  abbrev pub own_slug : Option String → World E C V R → Option (List ℕ)
  own_slug none w = none
  own_slug (some id) w = slug_of stores db env (find_event stores db env id w)

  unique_slug_by :
      (seed : List ℕ) (exclude_id : Option String) (w : World E C V R) (slug : List ℕ)
      → free_slug
          (suc (length (slugs_of stores db env w)))
          (slugs_of stores db env w)
          (own_slug exclude_id w)
          (slugify seed)
          (slugify seed)
          2
        ≡ some slug
      → unique_slug stores db env seed exclude_id w ≡ (ok slug, w)
  unfolding unique_slug
  unique_slug_by seed none w slug h = ground (arith, h)
  unique_slug_by seed (some id) w slug h = ground (arith, h)

  -- `uniqueSlug` returns, and changes nothing: what it returns is the slug of no event, or of the
  -- event that is left out.
  pub unique_slug_returns :
      (seed : List ℕ) (exclude_id : Option String) (w : World E C V R)
      → (slug : List ℕ) × (unique_slug stores db env seed exclude_id w ≡ (ok slug, w))
        × (ends (slugs_of stores db env w) (own_slug exclude_id w) slug ≡ true)
  unique_slug_returns seed exclude_id w =
      let slugs = slugs_of stores db env w in
      let (j, within, result, there, first) =
        free_slug-ends slugs (own_slug exclude_id w) (slugify seed) (suc (length slugs))
          (omega arith) in
      (_, unique_slug_by seed exclude_id w _ result, there)

  module _ (ctx : RequestContext) (input : CreateEventInput) where
    -- What has happened when a new event `row` is returned.
    pub record Created (w : World E C V R) (row : EventRow) (w' : World E C V R) : Type 0 where
      pub owner : Owner
      pub authorised : Authorised stores db env ctx input owner
      pub placed : is_placed owner ≡ true
      pub slug : List ℕ
      pub new_slug : any (λ r. text_eq slug r.slug) (stores.events.rows w.events) ≡ false
      pub row_is : row ≡ record {
        id = env.new_event_id w.events;
        title = input.title;
        slug = slug;
        starts_at = input.starts_at;
        ends_at = input.ends_at;
        location = input.location;
        description = input.description;
        cover_url = input.cover_url;
        is_district_event = owner.is_district_event;
        club_id = owner.club_id;
        project_key = owner.project_key;
        rsvp_open = get_or input.rsvp_open true;
        capacity = input.capacity;
        photos = get_or input.photos [];
        created_by_id = ctx.user_id;
        created_at = env.now;
        updated_at = env.now;
      }
      pub rows : stores.events.rows w'.events ≡ stores.events.rows w.events ++ row ∷ []
      pub rest : w' ≡ record w { events = w'.events }

    abbrev pub EventOutcome : World E C V R → Result EventRow → World E C V R → Type 0
    EventOutcome w (ok row) w' = Created w row w'
    EventOutcome w (err e) w' = w' ≡ w
