-- ===== src/Notifications/Dispatch/Queue.antt =====
-- The rest of src/notifications/notification-dispatch.service.ts with `createQueued` of
-- notification-outbox.repository.ts and console-notification.adapter.ts, and the sweep of
-- notification-send.processor.ts: from a notification to the jobs of the queue.
use mathlib.Core.List.{append_assoc, append-nil}
use rac3011_api.Base.{
  ℕ, ◌-◌, ◌+◌, ◌*◌, ◌≡◌, refl, String, Bool, true, false, ◌&&◌, Option, none, some, List, [], ◌∷◌,
  ◌++◌, map, if◌then◌else◌, ◌⊎◌, inl, inr, get_or, length, ltb, any, All, ok, err, internal,
  Option-cases, arith, ap, sym, ◌∙◌,
}
use rac3011_api.Action.{Action, pure, modify, ◌>>◌}
use rac3011_api.Db.{Table}
use rac3011_api.Effects.{Recipient}
use rac3011_api.Notifications.Outbox.{OutboxRow, OutboxStatus, queued, sent, failed, same_id}
use rac3011_api.Notifications.Sender.{Rendered}
use rac3011_api.Notifications.Dispatch.{ResolvedRecipient, resolve_recipients}

pub data Channel : Type 0 where
  email_channel push_channel : Channel

abbrev pub is_email : Channel → Bool
is_email email_channel = true
is_email push_channel = false

pub record NotifyInput (D : Type 0) : Type 0 where
  pub template : String
  pub to : List Recipient
  pub payload : D
  pub channels : Option (List Channel)

-- The jobs that the queue has taken, and what the console adapter remembers.
pub record DispatchWorld (S D : Type 0) : Type 0 where
  pub outbox : S
  pub jobs : List String
  pub console : List (NotifyInput D)

-- `queue.add` rejects the jobs for which `accepts` is false; `find_stale` is the query with its
-- order and its limit.
pub record DispatchEnv (S D : Type 0) : Type 0 where
  pub now : ℕ
  pub new_id : S → String
  pub render : String → D → String ⊎ Rendered
  pub accepts : String → Bool
  pub lower : String → String
  pub find_users : List String → List (String × String)
  pub find_stale : (OutboxRow D → Bool) → ℕ → S → List (OutboxRow D)

abbrev pub max_attempts : ℕ
max_attempts = 5

abbrev pub sweep_stale_ms : ℕ
sweep_stale_ms = 2 * 60 * 1000

abbrev pub sweep_batch_size : ℕ
sweep_batch_size = 200

-- `ConsoleNotificationAdapter.notify`
abbrev pub remember : {A : Type 0} → A → List A → List A
remember x [] = x ∷ []
remember x (y ∷ ys) = if ltb 200 (length (y ∷ ys) + 1) then ys ++ x ∷ [] else (y ∷ ys) ++ x ∷ []

module _ {S D : Type 0} (table : Table S (OutboxRow D) same_id) (env : DispatchEnv S D) where
  abbrev pub queued_row : NotifyInput D → String → ResolvedRecipient → S → OutboxRow D
  queued_row input subject r s = record {
    id = env.new_id s;
    to_user_id = r.user_id;
    to_address = r.email;
    template = input.template;
    subject = some subject;
    payload = input.payload;
    status = queued;
    provider = none;
    attempts = 0;
    last_error = none;
    sent_at = none;
    created_at = env.now;
  }

  -- `createQueued`: in one transaction, so that `none` leaves no row.
  unfoldable pub create_queued :
      NotifyInput D → String → List ResolvedRecipient → S → Option (List String × S)
  create_queued input subject [] s = some ([], s)
  create_queued input subject (r ∷ rs) s = elim (table.create (queued_row input subject r s) s) [
    | none ↦ none
    | some s' ↦ elim (create_queued input subject rs s') [
      | none ↦ none
      | some (ids, s'') ↦ some (env.new_id s ∷ ids, s'')
    ]
  ]

  -- The loop over the new ids: a job that is rejected is logged.
  unfoldable pub enqueue : List String → List String → List String
  enqueue [] jobs = jobs
  enqueue (id ∷ ids) jobs = enqueue ids (if env.accepts id then jobs ++ id ∷ [] else jobs)

  abbrev pub store_and_enqueue :
      NotifyInput D → Rendered → List ResolvedRecipient → Action (DispatchWorld S D) (Unit {0})
  store_and_enqueue input rendered recipients w =
      elim (create_queued input rendered.subject recipients w.outbox) [
        | none ↦ (err internal, w)
        | some (ids, s) ↦ (ok tt, record w { outbox = s; jobs = enqueue ids w.jobs })
      ]

  abbrev pub dispatch_to :
      NotifyInput D → List ResolvedRecipient → Action (DispatchWorld S D) (Unit {0})
  dispatch_to input [] w = (ok tt, w)
  dispatch_to input (r ∷ rs) w = elim (env.render input.template input.payload) [
    | inl message ↦ (err internal, w)
    | inr rendered ↦ store_and_enqueue input rendered (r ∷ rs) w
  ]

  unfoldable pub dispatch_email : NotifyInput D → Action (DispatchWorld S D) (Unit {0})
  dispatch_email input = dispatch_to input (resolve_recipients env.lower env.find_users input.to)

  unfoldable pub notify : NotifyInput D → Action (DispatchWorld S D) (Unit {0})
  notify input = do
    (if any is_email (get_or input.channels (email_channel ∷ []))
        then dispatch_email input
        else pure tt)
    modify (λ w. record w { console = remember input w.console })

  abbrev pub is_queued_row : OutboxStatus → Bool
  is_queued_row queued = true
  is_queued_row sent = false
  is_queued_row failed = false

  -- The `where` of `findStaleQueued`.
  abbrev pub is_stale : ℕ → OutboxRow D → Bool
  is_stale older_than r =
      is_queued_row r.status && ltb r.created_at older_than && ltb r.attempts max_attempts

  unfoldable pub sweep : DispatchWorld S D → DispatchWorld S D
  sweep w =
      let stale = env.find_stale (is_stale (env.now - sweep_stale_ms)) sweep_batch_size w.outbox in
      record w { jobs = enqueue (map OutboxRow.id stale) w.jobs }

  -- The rows that are new, for the recipients and with the ids.
  abbrev pub QueuedFor : List ResolvedRecipient → List String → List (OutboxRow D) → Type 0
  QueuedFor recipients ids rows =
      (map OutboxRow.to_address rows ≡ map ResolvedRecipient.email recipients)
      × (map OutboxRow.id rows ≡ ids)
      × All (λ (r : OutboxRow D). (r.status ≡ queued) × (r.attempts ≡ 0)) rows

  -- If the transaction succeeds, the outbox has one more row for each recipient, in order, for its
  -- address, queued and with no attempt made, and the ids that are returned are those of these rows.
  pub create_queued-QueuedFor :
      (input : NotifyInput D) (subject : String) (recipients : List ResolvedRecipient) (s : S)
      (ids : List String) (s' : S)
      → create_queued input subject recipients s ≡ some (ids, s')
      → (rows : List (OutboxRow D)) × (table.rows s' ≡ table.rows s ++ rows)
        × QueuedFor recipients ids rows
  unfolding create_queued
  create_queued-QueuedFor input subject [] s ids s' h =
      ([], ap table.rows (ground arith) ∙ sym (append-nil (table.rows s)), (refl, ground arith, tt))
  create_queued-QueuedFor input subject (r ∷ rs) s ids s' h =
      elim (Option-cases (table.create (queued_row input subject r s) s)) [
        | inl taken ↦ absurd (ground (arith, h, taken))
        | inr (s1, made) ↦ elim (Option-cases (create_queued input subject rs s1)) [
          | inl failed_later ↦ absurd (ground (arith, h, made, failed_later))
          | inr ((later_ids, s2), later) ↦
              let (rows, grown, (addresses, new_ids, waiting)) =
                create_queued-QueuedFor input subject rs s1 later_ids s2 later in
              let row = queued_row input subject r s in
              let last : s' ≡ s2 = ground (arith, h, made, later) in
              let all_ids : ids ≡ env.new_id s ∷ later_ids = ground (arith, h, made, later) in
              (
                row ∷ rows,
                ap table.rows last
                    ∙ grown
                    ∙ (rw (table.rows_create row s s1 made)
                        (append_assoc (table.rows s) (row ∷ []) rows)),
                (rw addresses refl, rw (new_ids, all_ids) refl, ((refl, refl), waiting)),
              )
        ]
      ]
