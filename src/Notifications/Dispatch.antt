-- ===== src/Notifications/Dispatch.antt =====
-- src/notifications/notification-dispatch.service.ts: whom a notification goes to. `lower` is
-- `toLowerCase` of JavaScript's texts, `find_many` the query for the users of the given ids.
pub mod Laws
pub mod Queue
use rac3011_api.Base.{
  String, Bool, true, false, not, ◌&&◌, Option, none, some, List, [], ◌∷◌, if◌then◌else◌, ◌==◌, map,
  keep, truthy?, get_or, includes, set_add,
}
use rac3011_api.Effects.{Recipient}

pub record ResolvedRecipient : Type 0 where
  pub email : String
  pub user_id : Option String

-- `new Map(rows.map((r) => [r.id, r.email])).get(id)`: of equal keys the last one counts.
abbrev pub map_get : String → List (String × String) → Option String
map_get id [] = none
map_get id ((key, email) ∷ rows) = elim (map_get id rows) [
  | some later ↦ some later
  | none ↦ if key == id then some email else none
]

-- `!t.email && t.userId`
abbrev pub needs_lookup : Recipient → Bool
needs_lookup t = not (truthy? t.email) && truthy? t.user_id

-- A text that may be missing, if it is truthy.
abbrev pub if_truthy : Option String → Option String
if_truthy s = if truthy? s then s else none

-- The body of the loop up to `if (!email) continue`: no address means the recipient is skipped.
unfoldable pub email_of : List (String × String) → Recipient → Option String
email_of users recipient =
    if needs_lookup recipient
    then if_truthy (map_get (get_or recipient.user_id "") users)
    else if_truthy recipient.email

module _ (lower : String → String) where
  unfoldable pub resolve_from :
      List (String × String) → List Recipient → List String → List ResolvedRecipient
  resolve_from users [] seen = []
  resolve_from users (recipient ∷ to) seen = elim (email_of users recipient) [
    | none ↦ resolve_from users to seen
    | some email ↦
        let skipped = resolve_from users to seen in
        let added = resolve_from users to (set_add (lower email) seen) in
        if includes (lower email) seen
        then skipped
        else record { email = email; user_id = recipient.user_id } ∷ added
  ]

  module _ (find_many : List String → List (String × String)) where
    -- `findUserEmails`, and the test before it.
    abbrev pub find_user_emails : List String → List (String × String)
    find_user_emails [] = []
    find_user_emails (id ∷ ids) = find_many (id ∷ ids)

    unfoldable pub resolve_recipients : List Recipient → List ResolvedRecipient
    resolve_recipients to =
        let user_ids = map (λ t. get_or t.user_id "") (keep needs_lookup to) in
        resolve_from (find_user_emails user_ids) to []
