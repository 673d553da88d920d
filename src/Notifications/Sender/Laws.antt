-- ===== src/Notifications/Sender/Laws.antt =====
-- What a run of a send job leaves behind: the row of its id, the other rows, and a second run.
pub mod Runs
use Prim.Native.String.{◌++◌}
use mathlib.Core.Path.{subst}
use rac3011_api.Base.{
  ℕ, ◌+◌, ◌≤◌, String, ◌≡◌, refl, Bool, true, false, not, Option, none, some, ◌⊎◌, inl, inr,
  Bool-cases, leb, get_or, if◌then◌else◌, arith, eq_iff, Option-cases,
}
use rac3011_api.Db.{Table}
use rac3011_api.Notifications.Usage.{EmailProviderName}
use rac3011_api.Notifications.Pool.{EmailPoolResult, sent_by, refused, unavailable}
use rac3011_api.Notifications.Outbox.{
  OutboxRow, same_id, mark_sent, record_failed_attempt, find_by_id, has_id,
}
use rac3011_api.Notifications.Sender.{
  SendJob, SendEnv, SendWorld, JobResult, completed, thrown, Rendered, in_templates, suppressed,
  is_sent_status, conclude, send_rendered, process_row, process_send, fail_attempt,
}

-- Whether the queue will not run the job again.
abbrev pub is_last : SendJob → Bool
is_last job = leb (get_or job.attempts 1) (job.attempts_made + 1)

module _ {S P Q : Type 0} (table : Table S (OutboxRow P) same_id) (env : SendEnv P Q) where
  -- The row is marked as sent, by a provider or as muted.
  abbrev pub Marks : String → SendWorld S Q → JobResult × SendWorld S Q → Type 0
  Marks id w r =
      (provider : String) × (q : Q) × (r
        ≡ (completed, record { outbox = mark_sent table id provider env.now w.outbox; pool = q }))

  -- A failed attempt is noted, for good if it is the last one, and the job throws.
  abbrev pub Fails : SendJob → String → SendWorld S Q → JobResult × SendWorld S Q → Type 0
  Fails job id w r =
      (message : String) × (q : Q) × (r ≡ (
        thrown message,
        record { outbox = record_failed_attempt table id message (is_last job) w.outbox; pool = q },
      ))

  conclude_cases :
      (job : SendJob) (row : OutboxRow P) (result : EmailPoolResult) (w : SendWorld S Q)
      → Marks row.id w (conclude table env job row result w)
        ⊎ Fails job row.id w (conclude table env job row result w)
  unfolding fail_attempt
  conclude_cases job row (sent_by name) w = inl (_, w.pool, refl)
  conclude_cases job row refused w = inr (_, w.pool, refl)
  conclude_cases job row unavailable w = inr (_, w.pool, refl)

  send_rendered_cases :
      (job : SendJob) (row : OutboxRow P) (text : String ⊎ Rendered) (w : SendWorld S Q)
      → Marks row.id w (send_rendered table env job row text w)
        ⊎ Fails job row.id w (send_rendered table env job row text w)
  unfolding fail_attempt
  send_rendered_cases job row (inl message) w = inr (message, w.pool, refl)
  send_rendered_cases job row (inr rendered) w =
      let (result, pool) =
        env.send
          record {
            to = row.to_address;
            subject = get_or row.subject rendered.subject;
            html = rendered.html;
            text = rendered.text;
          }
          w.pool in
      conclude_cases job row result (record w { pool = pool })

  -- What a run does about a row that is there, with the id `id`.
  abbrev pub RunCases :
      SendJob → OutboxRow P → SendWorld S Q → JobResult × SendWorld S Q → String → Type 0
  RunCases job row w r id =
      ((is_sent_status row.status ≡ true) × (r ≡ (completed, w)))
      ⊎ ((in_templates row.template ≡ false)
          × (message : String) × (r ≡ (
            completed,
            record w { outbox = record_failed_attempt table id message true w.outbox },
          )))
      ⊎ Marks id w r
      ⊎ Fails job id w r

  process_row_cases :
      (job : SendJob) (row : OutboxRow P) (w : SendWorld S Q)
      → RunCases job row w (process_row table env job (some row) w) row.id
  process_row_cases job row w = elim (Bool-cases (is_sent_status row.status)) [
    | inl done ↦ inl (done, rw done refl)
    | inr todo ↦ elim (Bool-cases (in_templates row.template)) [
      | inr unknown ↦
          inr (inl (unknown, "unknown template " ++ row.template, rw (todo, unknown) refl))
      | inl known ↦ elim (Bool-cases (suppressed table env row.template)) [
        | inl mute ↦ inr (inr (inl ("muted", w.pool, rw (todo, known, mute) refl)))
        | inr speak ↦ inr (
            inr (
              rw (todo, known, speak)
                (send_rendered_cases job row (env.render row.template row.payload) w)))
      ]
    ]
  ]

  id_of_found :
      (id : String) (s : S) (row : OutboxRow P) → find_by_id table id s ≡ some row → row.id ≡ id
  unfolding find_by_id
  id_of_found id s row found =
      ground (arith, table.find_first_holds (has_id table id) s row found, eq_iff row.id id)

  -- Every run.
  pub process_send_cases :
      (job : SendJob) (w : SendWorld S Q)
      → ((find_by_id table job.outbox_id w.outbox ≡ none)
          × (process_send table env job w ≡ (completed, w)))
        ⊎ ((row : OutboxRow P) × (find_by_id table job.outbox_id w.outbox ≡ some row)
            × RunCases job row w (process_send table env job w) job.outbox_id)
  unfolding process_send
  process_send_cases job w = elim (Option-cases (find_by_id table job.outbox_id w.outbox)) [
    | inl missing ↦ inl (missing, rw missing refl)
    | inr (row, found) ↦ inr (
      row,
      found,
      rw found (
          subst (RunCases job row w (process_row table env job (some row) w))
            (id_of_found job.outbox_id w.outbox row found) (process_row_cases job row w)),
    )
  ]
