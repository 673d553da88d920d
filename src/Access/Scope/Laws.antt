-- ===== src/Access/Scope/Laws.antt =====
-- The filter on lists and the check on one club agree.
use rac3011_api.Base.{
  String, ◌≡◌, refl, sym, ◌∙◌, ◌≢◌, Bool, true, false, ◌&&◌, ◌||◌, Option, none, some, List, [],
  ◌∷◌, map, arith, ◌==◌, any, is_text, includes, set_add_all, includes-set_add_all, eq_iff,
  Bool-cases, Option-cases, inl, inr,
}
use rac3011_api.Access.Types.{ScopeKind, club, zone, project, kind_eq, Scope, ResolvedAccess}
use rac3011_api.Access.Scope.{
  ClubRow, in_zones, ClubClient, ClubScopeFilter, all_clubs, club_ids, ProjectFilter, all_projects,
  project_keys, scopes_for, ids_of, is_unscoped, can_access_project, project_filter, narrow_clubs,
  find_zone_id_of_club, find_club_ids_in_zones, zone_granted, can_access_club, club_filter, is_all,
  union_ids, club_filter_any, can_access_club_any,
}

-- The clubs that a filter lets through.
abbrev pub allows : ClubScopeFilter → String → Bool
allows all_clubs id = true
allows (club_ids ids) id = includes id ids

-- `ids_of` collects exactly the truthy ids of the scopes of one kind.
includes-ids_of :
    (kind : ScopeKind) (id : String) (scopes : List Scope)
    → id ≢ ""
    → includes id (ids_of kind scopes) ≡ any (λ s. kind_eq s.kind kind && is_text s.id id) scopes
unfolding ids_of
includes-ids_of kind id [] ne = refl
includes-ids_of kind id (s ∷ scopes) ne = elim (Option-cases s.id) [
  | inl e ↦ ground (arith, includes-ids_of kind id scopes ne)
  | inr (t, e) ↦ ground (arith, includes-ids_of kind id scopes ne, eq_iff t id, eq_iff t "", e)
]

ids_of-truthy : (kind : ScopeKind) (scopes : List Scope) → includes "" (ids_of kind scopes) ≡ false
unfolding ids_of
ids_of-truthy kind [] = refl
ids_of-truthy kind (s ∷ scopes) = elim (Option-cases s.id) [
  | inl e ↦ ground (arith, ids_of-truthy kind scopes)
  | inr (t, e) ↦ ground (arith, ids_of-truthy kind scopes, eq_iff t "", e)
]

in_zones-truthy :
    (zones : List String) (found : Option ClubRow)
    → includes "" zones ≡ false
    → in_zones zones found
      ≡ zone_granted zones (elim found [ none ↦ none | some row ↦ some row.zone_id ])
in_zones-truthy [] none h = refl
in_zones-truthy [] (some row) h = ground arith
in_zones-truthy (z ∷ zs) none h = refl
in_zones-truthy (z ∷ zs) (some row) h = elim (Option-cases row.zone_id) [
  | inl e ↦ ground (arith, e)
  | inr (t, e) ↦ elim (Bool-cases (t == "")) [
    | inl empty ↦ let same : t ≡ "" = (eq_iff t "").0 empty in rw (e, same) (ground arith)
    | inr full ↦ ground (arith, e)
  ]
]

module _ (db : ClubClient) where
  -- A list of truthy zones reaches a club either way of asking.
  includes-find_club_ids_in_zones :
      (id : String) (zones : List String)
      → includes "" zones ≡ false
      → includes id (find_club_ids_in_zones db zones)
        ≡ zone_granted zones (find_zone_id_of_club db id)
  unfolding find_club_ids_in_zones find_zone_id_of_club
  includes-find_club_ids_in_zones id [] h = refl
  includes-find_club_ids_in_zones id (z ∷ zs) h =
      db.find_many_iff id (z ∷ zs) ∙ in_zones-truthy (z ∷ zs) (db.find_unique id) h

  includes-filter_ids :
      (id : String) (scopes : List Scope)
      → id ≢ ""
      → includes id (
          set_add_all
            (find_club_ids_in_zones db (ids_of zone scopes))
            (set_add_all (ids_of club scopes) []))
        ≡ (any (λ s. kind_eq s.kind club && is_text s.id id) scopes
            || zone_granted (ids_of zone scopes) (find_zone_id_of_club db id))
  includes-filter_ids id scopes ne = ground (
    arith,
    includes-set_add_all id (find_club_ids_in_zones db (ids_of zone scopes))
        (set_add_all (ids_of club scopes) []),
    includes-set_add_all id (ids_of club scopes) [],
    includes-ids_of club id scopes ne,
    includes-find_club_ids_in_zones id (ids_of zone scopes) (ids_of-truthy zone scopes),
  )

  -- The check on one club and the filter on lists of clubs give the same answer, for every club
  -- with a non-empty id.
  pub can_access_club-club_filter :
      (access : ResolvedAccess) (permission id : String)
      → id ≢ ""
      → can_access_club db access permission id ≡ allows (club_filter db access permission) id
  unfolding can_access_club club_filter
  can_access_club-club_filter access permission id ne =
      ground (arith, includes-filter_ids id (scopes_for access permission) ne)

  includes-union_ids :
      (fs : List ClubScopeFilter) (ids : List String) (id : String)
      → any is_all fs ≡ false
      → includes id (union_ids fs ids) ≡ (includes id ids || any (λ f. allows f id) fs)
  unfolding union_ids
  includes-union_ids [] ids id h = ground arith
  includes-union_ids (all_clubs ∷ fs) ids id h = cc
  includes-union_ids (club_ids more ∷ fs) ids id h =
      ground
        (arith, includes-union_ids fs (set_add_all more ids) id h, includes-set_add_all id more ids)

  any-allows_of_is_all :
      (fs : List ClubScopeFilter) (id : String)
      → any is_all fs ≡ true
      → any (λ f. allows f id) fs ≡ true
  any-allows_of_is_all [] id h = cc
  any-allows_of_is_all (all_clubs ∷ fs) id h = refl
  any-allows_of_is_all (club_ids more ∷ fs) id h = ground (arith, any-allows_of_is_all fs id h)

  can_access_club_any-any :
      (access : ResolvedAccess) (permissions : List String) (id : String)
      → id ≢ ""
      → can_access_club_any db access permissions id
        ≡ any (λ f. allows f id) (map (club_filter db access) permissions)
  unfolding can_access_club_any
  can_access_club_any-any access [] id ne = refl
  can_access_club_any-any access (p ∷ permissions) id ne = ground (
    arith,
    can_access_club-club_filter access p id ne,
    can_access_club_any-any access permissions id ne,
  )

  can_access_club_any-super :
      (access : ResolvedAccess) (p : String) (permissions : List String) (id : String)
      → access.is_super_admin ≡ true
      → can_access_club_any db access (p ∷ permissions) id ≡ true
  unfolding can_access_club_any can_access_club
  can_access_club_any-super access p permissions id h = ground arith

  -- With several permissions, of which there is at least one, the check on one club and the union
  -- of the filters give the same answer too.
  pub can_access_club_any-club_filter_any :
      (access : ResolvedAccess) (p : String) (permissions : List String) (id : String)
      → id ≢ ""
      → can_access_club_any db access (p ∷ permissions) id
        ≡ allows (club_filter_any db access (p ∷ permissions)) id
  unfolding club_filter_any
  can_access_club_any-club_filter_any access p permissions id ne =
      let filters = map (club_filter db access) (p ∷ permissions) in
      elim (Bool-cases access.is_super_admin) [
        | inl super ↦ simp super (can_access_club_any-super access p permissions id super)
        | inr plain ↦ elim (Bool-cases (any is_all filters)) [
          | inl e ↦
              simp (plain, e)
                (can_access_club_any-any access (p ∷ permissions) id ne
                  ∙ any-allows_of_is_all filters id e)
          | inr e ↦
              simp (plain, e)
                (can_access_club_any-any access (p ∷ permissions) id ne
                  ∙ sym (includes-union_ids filters [] id e))
        ]
      ]

-- A filter narrowed to a requested club lets that club through if the filter did, and no other.
pub allows-narrow_clubs :
    (filter : ClubScopeFilter) (requested id : String)
    → requested ≢ ""
    → allows (narrow_clubs filter (some requested)) id ≡ (allows filter id && requested == id)
unfolding narrow_clubs
allows-narrow_clubs all_clubs requested id ne = ground (arith, eq_iff requested "")
allows-narrow_clubs (club_ids ids) requested id ne =
    ground (arith, eq_iff requested "", eq_iff requested id)

-- The projects that a filter lets through.
abbrev pub allows_project : ProjectFilter → String → Bool
allows_project all_projects key = true
allows_project (project_keys keys) key = includes key keys

any-or :
    (key : String) (scopes : List Scope)
    → any (λ s. is_unscoped s || (kind_eq s.kind project && is_text s.id key)) scopes
      ≡ (any is_unscoped scopes || any (λ s. kind_eq s.kind project && is_text s.id key) scopes)
any-or key [] = refl
any-or key (s ∷ scopes) = ground (arith, any-or key scopes)

-- So do the check on one project and the filter on projects.
pub can_access_project-project_filter :
    (access : ResolvedAccess) (permission key : String)
    → key ≢ ""
    → can_access_project access permission key
      ≡ allows_project (project_filter access permission) key
unfolding can_access_project project_filter
can_access_project-project_filter access permission key ne = ground (
  arith,
  any-or key (scopes_for access permission),
  includes-ids_of project key (scopes_for access permission) ne,
)
