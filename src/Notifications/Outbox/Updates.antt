-- ===== src/Notifications/Outbox/Updates.antt =====
-- The row of an id after an update by that id, and the rows of the other ids.
use rac3011_api.Base.{String, ◌≡◌, not, some, keep, is_some, ap, ◌==◌}
use rac3011_api.Db.{Table}
use rac3011_api.Db.Updates.{
  find_first-update_many, others-update_many, is_some-find_first-update_many,
}
use rac3011_api.Notifications.Outbox.{OutboxRow, same_id, has_id, find_by_id}

module _ {S P : Type 0} (table : Table S (OutboxRow P) same_id) (id : String)
    (f : OutboxRow P → OutboxRow P) (keeps : (r : OutboxRow P) → (f r).id ≡ r.id) where
  -- The row that is found after the update is an updated one.
  pub find_by_id-update :
      (s : S) (r' : OutboxRow P)
      → find_by_id table id (table.update_many (has_id table id) f s) ≡ some r'
      → (r : OutboxRow P) × (r' ≡ f r)
  unfolding find_by_id
  find_by_id-update =
      find_first-update_many table (has_id table id) f (λ r. ap (λ i. i == id) (keeps r))

  -- The rows with other ids stay as they are.
  pub others-update :
      (s : S)
      → keep (λ r. not (has_id table id r)) (table.rows (table.update_many (has_id table id) f s))
        ≡ keep (λ r. not (has_id table id r)) (table.rows s)
  others-update = others-update_many table (has_id table id) f (λ r. ap (λ i. i == id) (keeps r))

  pub is_some-find_by_id-update :
      (s : S)
      → is_some (find_by_id table id (table.update_many (has_id table id) f s))
        ≡ is_some (find_by_id table id s)
  unfolding find_by_id
  is_some-find_by_id-update =
      is_some-find_first-update_many table (has_id table id) f (λ r. ap (λ i. i == id) (keeps r))
