-- ===== src/Notifications/Tests/Dispatches.antt =====
-- Runs of the dispatch of a notification and of the sweep, and an instance of the theorem on rows.
use rac3011_api.Base.{
  String, ◌≡◌, refl, true, not, none, some, List, [], ◌∷◌, ◌++◌, inr, ok, ◌==◌, length, eqb,
  if◌then◌else◌, keep,
}
use rac3011_api.Db.{Table}
use rac3011_api.Db.ListTable.{list_table}
use rac3011_api.Notifications.Tests.{lower}
use rac3011_api.Notifications.Outbox.{OutboxRow, queued, same_id}
use rac3011_api.Notifications.Dispatch.{
  ResolvedRecipient, email_of, resolve_from, resolve_recipients,
}
use rac3011_api.Notifications.Dispatch.Queue
use rac3011_api.Notifications.Dispatch.Queue.{
  NotifyInput, DispatchWorld, DispatchEnv, push_channel, create_queued, enqueue, dispatch_email,
  notify, sweep, create_queued-QueuedFor,
}

run : Unit {0}
unfolding email_of resolve_from resolve_recipients create_queued enqueue dispatch_email notify sweep
run = tt

abbrev table : Table (List (OutboxRow String)) (OutboxRow String) same_id
table = list_table same_id

-- The queue rejects the job of the second row.
abbrev env : DispatchEnv (List (OutboxRow String)) String
env = record {
  now = 1000000;
  new_id = λ s. if eqb (length s) 0 then "n1" else "n2";
  render = λ template payload. inr (record { subject = "S"; html = "<p>"; text = "p" });
  accepts = λ id. not (id == "n2");
  lower = lower;
  find_users = λ ids. ("u2", "b@x") ∷ [];
  find_stale = λ test n s. keep test s;
}

abbrev input : NotifyInput String
input = record {
  template = "otp";
  to =
      record { user_id = none; email = some "qa@x" }
      ∷ record { user_id = some "u2"; email = none }
      ∷ record { user_id = none; email = some "QA@x" }
      ∷ [];
  payload = "";
  channels = none;
}

abbrev row : String → String → ResolvedRecipient → OutboxRow String
row id address r = record {
  id = id;
  to_user_id = r.user_id;
  to_address = address;
  template = "otp";
  subject = some "S";
  payload = "";
  status = queued;
  provider = none;
  attempts = 0;
  last_error = none;
  sent_at = none;
  created_at = 1000000;
}

abbrev recipients : List ResolvedRecipient
recipients =
    record { email = "qa@x"; user_id = none } ∷ record { email = "b@x"; user_id = some "u2" } ∷ []

abbrev rows : List (OutboxRow String)
rows =
    row "n1" "qa@x" (record { email = "qa@x"; user_id = none })
    ∷ row "n2" "b@x" (record { email = "b@x"; user_id = some "u2" })
    ∷ []

abbrev nothing : DispatchWorld (List (OutboxRow String)) String
nothing = record { outbox = []; jobs = []; console = [] }

-- Two rows and one job; a request for push alone leaves no row; five minutes later the sweep asks for
-- both jobs again.
dispatched :
    (notify table env input nothing
      ≡ (ok tt, record { outbox = rows; jobs = "n1" ∷ []; console = input ∷ [] }))
    × (notify table env (record input { channels = some (push_channel ∷ []) }) nothing ≡ (
      ok tt,
      record nothing { console = record input { channels = some (push_channel ∷ []) } ∷ [] },
    ))
    × ((sweep table
          (record env { now = 1300000; accepts = λ id. true })
          (record nothing { outbox = rows })).jobs
        ≡ "n1" ∷ "n2" ∷ [])
unfolding run
dispatched = (refl, refl, refl)

created : create_queued table env input "S" recipients [] ≡ some ("n1" ∷ "n2" ∷ [], rows)
unfolding run
created = refl

create_queued-QueuedFor_example :
    (new : List (OutboxRow String)) × (rows ≡ [] ++ new)
    × Queue.QueuedFor table env recipients ("n1" ∷ "n2" ∷ []) new
create_queued-QueuedFor_example =
    create_queued-QueuedFor table env input "S" recipients [] ("n1" ∷ "n2" ∷ []) rows created
