-- ===== src/Notifications/Dispatch/Laws.antt =====
-- Nobody is written to twice, and nobody is left out.
use rac3011_api.Base.{
  String, ◌≡◌, refl, Bool, true, false, not, ◌&&◌, none, some, List, [], ◌∷◌, map, any, arith,
  eq_iff, keep, get_or, includes, set_add, includes-set_add, IsSetOf, Option-cases, Bool-cases, inl,
  inr, ◌==◌, if◌then◌else◌, Option, ◌||◌, ap, sym, ◌∙◌, All, is_some, truthy?,
}
use rac3011_api.Effects.{Recipient}
use rac3011_api.Notifications.Dispatch.{
  ResolvedRecipient, email_of, resolve_from, resolve_recipients, find_user_emails, needs_lookup,
  map_get,
}

module _ (lower : String → String) (users : List (String × String)) where
  abbrev pub key_of : ResolvedRecipient → String
  key_of r = lower r.email

  -- The recipient resolves to an address with this key.
  abbrev pub resolves_to : String → Recipient → Bool
  resolves_to key recipient = elim (email_of users recipient) [
    | none ↦ false
    | some email ↦ lower email == key
  ]

  module _ (r : Recipient) (to : List Recipient) (seen : List String) where
    resolve_from-none :
        email_of users r ≡ none
        → resolve_from lower users (r ∷ to) seen ≡ resolve_from lower users to seen
    unfolding resolve_from
    resolve_from-none h = rw (resolve_from, h) refl

    resolve_from-some :
        (email : String)
        → email_of users r ≡ some email
        → resolve_from lower users (r ∷ to) seen ≡ (
            if includes (lower email) seen
            then resolve_from lower users to seen
            else record { email = email; user_id = r.user_id }
              ∷ resolve_from lower users to (set_add (lower email) seen))
    unfolding resolve_from
    resolve_from-some email h = rw (resolve_from, h) refl

    resolve_from-twice :
        (email : String)
        → email_of users r ≡ some email
        → includes (lower email) seen ≡ true
        → resolve_from lower users (r ∷ to) seen ≡ resolve_from lower users to seen
    resolve_from-twice email h twice = ground (arith, resolve_from-some email h)

    resolve_from-new :
        (email : String)
        → email_of users r ≡ some email
        → includes (lower email) seen ≡ false
        → resolve_from lower users (r ∷ to) seen
          ≡ record { email = email; user_id = r.user_id }
            ∷ resolve_from lower users to (set_add (lower email) seen)
    resolve_from-new email h new = ground (arith, resolve_from-some email h)

  includes-resolve_from :
      (key : String) (to : List Recipient) (seen : List String)
      → includes key (map key_of (resolve_from lower users to seen))
        ≡ (any (resolves_to key) to && not (includes key seen))
  includes-resolve_from key [] seen = unfold resolve_from in refl
  includes-resolve_from key (r ∷ to) seen = elim (Option-cases (email_of users r)) [
    | inl nowhere ↦
        rw (resolve_from-none r to seen nowhere)
          (ground (arith, includes-resolve_from key to seen, nowhere))
    | inr (email, known) ↦ rw (resolve_from-some r to seen email known) (
        ground (
          arith,
          includes-resolve_from key to seen,
          known,
          includes-resolve_from key to (set_add (lower email) seen),
          includes-set_add key (lower email) seen,
          eq_iff (lower email) key,
        ))
  ]

  keys-IsSetOf :
      (to : List Recipient) (seen : List String)
      → IsSetOf (map key_of (resolve_from lower users to seen))
  keys-IsSetOf [] seen = unfold resolve_from in tt
  keys-IsSetOf (r ∷ to) seen = elim (Option-cases (email_of users r)) [
    | inl nowhere ↦ rw (resolve_from-none r to seen nowhere) (keys-IsSetOf to seen)
    | inr (email, known) ↦ elim (Bool-cases (includes (lower email) seen)) [
      | inl twice ↦ rw (resolve_from-twice r to seen email known twice) (keys-IsSetOf to seen)
      | inr new ↦ rw (resolve_from-new r to seen email known new) (
        ground (
          arith,
          includes-resolve_from (lower email) to (set_add (lower email) seen),
          includes-set_add (lower email) (lower email) seen,
          eq_iff (lower email) (lower email),
        ),
        keys-IsSetOf to (set_add (lower email) seen),
      )
    ]
  ]

-- What the query for users is documented to do: it gives the rows of the users that there are among
-- those asked for, each with the address that `user_email` has for it.
pub record IsQuery (user_email : String → Option String)
    (find_many : List String → List (String × String)) : Type 0 where
  pub sound : (ids : List String) → All (λ (id, email). user_email id ≡ some email) (find_many ids)
  pub complete :
      (ids : List String) (id : String)
      → includes id ids ≡ true
      → any (λ (key, email). key == id) (find_many ids) ≡ is_some (user_email id)

-- Whether a recipient is to be written to at this address: at the recipient's own one, or else at
-- that of the user of that id, each if it is there and not empty.
abbrev pub is_address_of : (String → String) → (String → Option String) → String → Recipient → Bool
is_address_of lower user_email key r =
    if truthy? r.email
    then lower (get_or r.email "") == key
    else truthy? r.user_id
      && truthy? (user_email (get_or r.user_id ""))
      && lower (get_or (user_email (get_or r.user_id "")) "") == key

any-map_get :
    (id : String) (rows : List (String × String))
    → is_some (map_get id rows) ≡ any (λ (key, email). key == id) rows
any-map_get id [] = refl
any-map_get id ((key, email) ∷ rows) = ground (arith, any-map_get id rows)

map_get_sound :
    (user_email : String → Option String) (id email : String) (rows : List (String × String))
    → All (λ (key, e). user_email key ≡ some e) rows
    → map_get id rows ≡ some email
    → user_email id ≡ some email
map_get_sound user_email id email [] h e = absurd (ground (arith, e))
map_get_sound user_email id email ((key, first) ∷ rows) (here, there) e =
    elim (Option-cases (map_get id rows)) [
      | inr (later, at_id) ↦
          map_get_sound user_email id email rows there (at_id ∙ ground (arith, e, at_id))
      | inl missing ↦ elim (Bool-cases (key == id)) [
        | inl same ↦
            ap user_email (sym ((eq_iff key id).0 same)) ∙ here ∙ ground (arith, e, missing, same)
        | inr other ↦ absurd (ground (arith, e, missing, other))
      ]
    ]

map_get-find_many :
    (user_email : String → Option String) (find_many : List String → List (String × String))
    (ids : List String) (id : String)
    → IsQuery user_email find_many
    → includes id ids ≡ true
    → map_get id (find_many ids) ≡ user_email id
map_get-find_many user_email find_many ids id query asked =
    let there = any-map_get id (find_many ids) ∙ query.complete ids id asked in
    elim (Option-cases (map_get id (find_many ids))) [
      | inr (email, found) ↦
          found ∙ sym (map_get_sound user_email id email (find_many ids) (query.sound ids) found)
      | inl missing ↦ elim (Option-cases (user_email id)) [
        | inl nobody ↦ missing ∙ sym nobody
        | inr (email, has) ↦ absurd (ground (arith, there, missing, has))
      ]
    ]

map_get-find_user_emails :
    (lower : String → String) (user_email : String → Option String)
    (find_many : List String → List (String × String)) (ids : List String) (id : String)
    → IsQuery user_email find_many
    → includes id ids ≡ true
    → map_get id (find_user_emails lower find_many ids) ≡ user_email id
map_get-find_user_emails lower user_email find_many [] id query asked =
    absurd (ground (arith, asked))
map_get-find_user_emails lower user_email find_many (i ∷ ids) id query asked =
    map_get-find_many user_email find_many (i ∷ ids) id query asked

-- The ids that are asked for.
abbrev ids_of : List Recipient → List String
ids_of to = map (λ t. get_or t.user_id "") (keep needs_lookup to)

module _ (lower : String → String) (user_email : String → Option String)
    (users : List (String × String)) (key : String) where
  resolves_to-is_address_of :
      (r : Recipient)
      → (needs_lookup r ≡ true
          → map_get (get_or r.user_id "") users ≡ user_email (get_or r.user_id ""))
      → resolves_to lower users key r ≡ is_address_of lower user_email key r
  unfolding email_of
  resolves_to-is_address_of r known = elim (Bool-cases (truthy? r.email)) [
    | inl own ↦ elim (Option-cases r.email) [
      | inl none_own ↦ ground (arith, own, none_own)
      | inr (email, e) ↦ ground (arith, own, e)
    ]
    | inr none_own ↦ elim (Bool-cases (truthy? r.user_id)) [
      | inr nobody ↦ ground (arith, none_own, nobody)
      | inl somebody ↦
          let same = known (ground (arith, none_own, somebody)) in
          elim (Option-cases (user_email (get_or r.user_id ""))) [
            | inl missing ↦ ground (arith, none_own, somebody, same, missing)
            | inr (email, there) ↦ ground (arith, none_own, somebody, same, there)
          ]
    ]
  ]

  any-is_address_of :
      (to : List Recipient)
      → ((id : String) → includes id (ids_of to) ≡ true → map_get id users ≡ user_email id)
      → any (resolves_to lower users key) to ≡ any (is_address_of lower user_email key) to
  any-is_address_of [] known = refl
  any-is_address_of (r ∷ to) known =
      let first = resolves_to-is_address_of r λ looked_up.
        known (get_or r.user_id "")
          (ground (arith, looked_up, eq_iff (get_or r.user_id "") (get_or r.user_id ""))) in
      let rest = any-is_address_of to λ id asked. known id (asked_later id asked) in
      λ i. first i || rest i
    where
      asked_later :
          (id : String) → includes id (ids_of to) ≡ true → includes id (ids_of (r ∷ to)) ≡ true
      asked_later id asked = elim (Bool-cases (needs_lookup r)) [
        | inl looked_up ↦ ground (arith, asked, looked_up)
        | inr own ↦ ground (arith, asked, own)
      ]

-- Where the query for users gives the users asked for with their addresses: of the addresses that are
-- written to no two are the same in lower case, and an address is written to, up to letter case,
-- exactly if it is that of one of the recipients: the recipient's own if there is one, or else the
-- one that the user of that id has, neither of them empty.
pub resolve_recipients-addresses :
    (lower : String → String) (user_email : String → Option String)
    (find_many : List String → List (String × String)) (to : List Recipient)
    → IsQuery user_email find_many
    → let keys = map (λ r. lower r.email) (resolve_recipients lower find_many to) in
      IsSetOf keys
      × ((key : String) → includes key keys ≡ any (is_address_of lower user_email key) to)
unfolding resolve_recipients
resolve_recipients-addresses lower user_email find_many to query =
    let users = find_user_emails lower find_many (ids_of to) in
    (
      keys-IsSetOf lower users to [],
      λ key.
          ground (arith, includes-resolve_from lower users key to [])
          ∙ any-is_address_of lower user_email users key to
              (λ id. map_get-find_user_emails lower user_email find_many (ids_of to) id query),
    )
