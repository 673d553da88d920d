-- ===== src/Roles/Permissions.antt =====
-- src/rbac/roles.service.ts (resolvePermissionIds).
use rac3011_api.Base.{
  String, not, Option, List, [], map, any, set_add_all, if◌then◌else◌, is_some, get_or, Result, ok,
  err, bad_request,
}
use rac3011_api.Access.Types.{is_permission_key}

-- `[...new Set(keys)]`
abbrev pub unique : List String → List String
unique keys = set_add_all keys []

-- `permission_id` is the map that `permissionIdsByKeys` returns.
unfoldable pub resolve_permission_ids :
    (String → Option String) → List String → Result (List String)
resolve_permission_ids permission_id keys =
    if any (λ key. not (is_permission_key key)) (unique keys)
    then err bad_request
    else if any (λ key. not (is_some (permission_id key))) (unique keys)
    then err bad_request
    else ok (map (λ key. get_or (permission_id key) "") (unique keys))
