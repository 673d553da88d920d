-- ===== src/Access/Types.antt =====
-- src/common/types/access.ts and permission-keys.ts. An object keyed by permission is a list of
-- entries in the order of their first assignment.
use rac3011_api.Base.{
  String, Bool, true, false, Option, none, some, List, [], ◌∷◌, ◌==◌, if◌then◌else◌, includes,
}

-- `ScopeKind`; the source's 'none' is `unscoped`.
pub data ScopeKind : Type 0 where
  unscoped club zone project : ScopeKind

abbrev pub kind_eq : ScopeKind → ScopeKind → Bool
kind_eq unscoped unscoped = true
kind_eq club club = true
kind_eq zone zone = true
kind_eq project project = true
kind_eq _ _ = false

pub record Scope : Type 0 where
  pub kind : ScopeKind
  pub id : Option String

-- `{ roleKey, scope }`
pub record RoleScope : Type 0 where
  pub role_key : String
  pub scope : Scope

abbrev pub Grants : Type 0
Grants = List (String × List Scope)

-- `grants[key]`, with `undefined` for a missing key.
abbrev pub lookup : String → Grants → Option (List Scope)
lookup k [] = none
lookup k ((j, v) ∷ g) = if j == k then some v else lookup k g

-- `grants[key] = v`
abbrev pub assign : String → List Scope → Grants → Grants
assign k v [] = (k, v) ∷ []
assign k v ((j, w) ∷ g) = if j == k then (j, v) ∷ g else (j, w) ∷ assign k v g

pub record ResolvedAccess : Type 0 where
  pub user_id : String
  pub is_super_admin : Bool
  pub roles : List RoleScope
  pub grants : Grants

abbrev pub permission_keys : List String
permission_keys =
    "profile:edit" ∷ "directory:view" ∷ "showcase:submit" ∷ "showcase:publish" ∷ "reports:submit"
    ∷ "reports:review" ∷ "reports:score" ∷ "requests:manage" ∷ "members:approve" ∷ "members:import"
    ∷ "members:view" ∷ "roles:manage" ∷ "content:edit" ∷ "content:publish" ∷ "point_rules:manage"
    ∷ "club_facts:edit" ∷ "effort:log" ∷ "effort:approve" ∷ "events:manage" ∷ "events:checkin"
    ∷ "club_events:log" ∷ "feedback:submit" ∷ "feedback:review" ∷ "announcements:send"
    ∷ "announcements:send_all" ∷ "settings:manage" ∷ "drr_calendar:manage" ∷ "audit:view"
    ∷ "clubs:view" ∷ "clubs:edit" ∷ "resources:manage" ∷ "forms:manage" ∷ "forms:responses:view"
    ∷ "comms:send" ∷ "public_content:manage" ∷ "subdomain:mission3011:manage"
    ∷ "subdomain:drishti:manage" ∷ "subdomain:rcl:manage" ∷ "subdomain:careerbridge:manage"
    ∷ "subdomain:ride:manage" ∷ "subdomain:ride:host_club_apply" ∷ "ride:manage"
    ∷ "ride:delegates:manage" ∷ []

unfoldable pub is_permission_key : String → Bool
is_permission_key value = includes value permission_keys
