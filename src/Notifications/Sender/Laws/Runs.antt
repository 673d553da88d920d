-- ===== src/Notifications/Sender/Laws/Runs.antt =====
-- The last run of a job settles its row, a second run changes nothing, and no run touches another row.
use rac3011_api.Base.{
  String, ◌≡◌, refl, Bool, true, false, not, some, keep, inl, inr, arith, Option-cases,
}
use rac3011_api.Db.{Table}
use rac3011_api.Notifications.Outbox.{
  OutboxRow, OutboxStatus, queued, sent, failed, same_id, has_id, find_by_id, mark_sent,
  record_failed_attempt, sent_row, failed_row,
}
use rac3011_api.Notifications.Outbox.Updates.{
  find_by_id-update, others-update, is_some-find_by_id-update,
}
use rac3011_api.Notifications.Sender.{
  SendJob, SendEnv, SendWorld, completed, in_templates, is_sent_status, process_send,
}
use rac3011_api.Notifications.Sender.Laws.{is_last, process_send_cases}

abbrev pub is_queued : OutboxStatus → Bool
is_queued queued = true
is_queued sent = false
is_queued failed = false

not_queued_of_sent : (s : OutboxStatus) → is_sent_status s ≡ true → is_queued s ≡ false
not_queued_of_sent queued h = absurd (cc)
not_queued_of_sent sent h = refl
not_queued_of_sent failed h = refl

module _ {S P Q : Type 0} (table : Table S (OutboxRow P) same_id) (env : SendEnv P Q) where
  -- After an update of the row to one that is not queued, the row that is found is not queued.
  settled :
      (id : String) (f : OutboxRow P → OutboxRow P) (s : S) (r' : OutboxRow P)
      → ((r : OutboxRow P) → (f r).id ≡ r.id)
      → ((r : OutboxRow P) → is_queued (f r).status ≡ false)
      → find_by_id table id (table.update_many (has_id table id) f s) ≡ some r'
      → is_queued r'.status ≡ false
  settled id f s r' keeps settles found =
      let (r, e) = find_by_id-update table id f keeps s r' found in rw e (settles r)

  -- If the queue will not run the job again, the row of its id, if there is one after the run, is
  -- sent or failed, whatever it was before and whatever the providers and the templates did.
  pub process_send-last :
      (job : SendJob) (w : SendWorld S Q) (r' : OutboxRow P)
      → is_last job ≡ true
      → find_by_id table job.outbox_id (process_send table env job w).1.outbox ≡ some r'
      → is_queued r'.status ≡ false
  unfolding mark_sent record_failed_attempt
  process_send-last job w r' last = elim (process_send_cases table env job w) [
    | inl (missing, e) ↦ rw (e, missing) (λ after. absurd (cc))
    | inr (row, found, inl (done, e)) ↦
        rw (e, found) (λ after. not_queued_of_sent r'.status (ground (arith, done, after)))
    | inr (row, found, inr (inl (_, message, e))) ↦
        rw e (settled job.outbox_id (failed_row message true) w.outbox r' (λ r. refl) (λ r. refl))
    | inr (row, found, inr (inr (inl (provider, _, e)))) ↦
        rw e (settled job.outbox_id (sent_row env.now provider) w.outbox r' (λ r. refl) (λ r. refl))
    | inr (row, found, inr (inr (inr (message, _, e)))) ↦
        rw (e, last)
          (settled job.outbox_id (failed_row message true) w.outbox r' (λ r. refl) (λ r. refl))
  ]

  -- A run of a job changes no row with another id.
  pub process_send-others :
      (job : SendJob) (w : SendWorld S Q)
      → keep
          (λ r. not (has_id table job.outbox_id r))
          (table.rows (process_send table env job w).1.outbox)
        ≡ keep (λ r. not (has_id table job.outbox_id r)) (table.rows w.outbox)
  unfolding mark_sent record_failed_attempt
  process_send-others job w = elim (process_send_cases table env job w) [
    | inl (missing, e) ↦ rw e refl
    | inr (row, found, inl (done, e)) ↦ rw e refl
    | inr (row, found, inr (inl (_, message, e))) ↦
        rw e (others-update table job.outbox_id (failed_row message true) (λ r. refl) w.outbox)
    | inr (row, found, inr (inr (inl (provider, _, e)))) ↦
        rw e (others-update table job.outbox_id (sent_row env.now provider) (λ r. refl) w.outbox)
    | inr (row, found, inr (inr (inr (message, _, e)))) ↦
        rw e (
          others-update table job.outbox_id (failed_row message (is_last job)) (λ r. refl) w.outbox)
  ]

  sent_found :
      (job : SendJob) (w : SendWorld S Q) (row : OutboxRow P)
      → find_by_id table job.outbox_id w.outbox ≡ some row
      → is_sent_status row.status ≡ true
      → process_send table env job w ≡ (completed, w)
  unfolding process_send
  sent_found job w row found done = rw (found, done) refl

  marked_found :
      (job : SendJob) (w : SendWorld S Q) (q : Q) (row : OutboxRow P) (provider : String)
      → find_by_id table job.outbox_id w.outbox ≡ some row
      → process_send table env job
          (record { outbox = mark_sent table job.outbox_id provider env.now w.outbox; pool = q })
        ≡ (
          completed,
          record { outbox = mark_sent table job.outbox_id provider env.now w.outbox; pool = q },
        )
  unfolding mark_sent
  marked_found job w q row provider found =
      let f = sent_row env.now provider in
      let s' = table.update_many (has_id table job.outbox_id) f w.outbox in
      elim (Option-cases (find_by_id table job.outbox_id s')) [
        | inl lost ↦ absurd (
            ground (
              arith,
              lost,
              found,
              is_some-find_by_id-update table job.outbox_id f (λ r. refl) w.outbox,
            ))
        | inr (r', there) ↦
            let (r, e) = find_by_id-update table job.outbox_id f (λ r. refl) w.outbox r' there in
            sent_found job (record { outbox = s'; pool = q }) r' there (rw e refl)
      ]

  -- If a run of a job for a row with a known template completes, then any later run for the same id
  -- changes nothing and asks no provider.
  pub process_send-again :
      (job again : SendJob) (w : SendWorld S Q) (row : OutboxRow P)
      → again.outbox_id ≡ job.outbox_id
      → find_by_id table job.outbox_id w.outbox ≡ some row
      → in_templates row.template ≡ true
      → (process_send table env job w).0 ≡ completed
      → process_send table env again (process_send table env job w).1
        ≡ (completed, (process_send table env job w).1)
  process_send-again job again w row same found known = elim (process_send_cases table env job w) [
    | inl (missing, e) ↦ absurd (ground (arith, missing, found))
    | inr (row', found', inl (done, e)) ↦
        rw e (λ fine. sent_found again w row' (rw same found') done)
    | inr (row', found', inr (inl (unknown, _, e))) ↦
        absurd (ground (arith, found, found', unknown, known))
    | inr (row', found', inr (inr (inl (provider, q, e)))) ↦
        rw e (λ fine. rw (← same) (marked_found again w q row provider (rw same found)))
    | inr (row', found', inr (inr (inr (_, _, e)))) ↦ rw e (λ wrong. absurd (cc))
  ]
