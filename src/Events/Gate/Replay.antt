-- ===== src/Events/Gate/Replay.antt =====
-- src/events/events-admin.service.ts (checkin): a pass is used once.
use rac3011_api.Base.{
  ℕ, String, ◌≡◌, refl, sym, ap, ◌∙◌, Bool, true, false, Option, none, some, List, ◌==◌, arith,
  Result, Result-cases, ok, err, conflict, token_replayed, Bool-cases, Option-cases, inl, inr,
  eq_iff,
}
use rac3011_api.Access.Guard.{RequestContext}
use rac3011_api.Access.Scope.{ClubClient}
use rac3011_api.Events.Types.{
  EventRow, CheckinRow, CheckinMethod, qr, CheckinInput, Member, Payload, PassStore, Stores, World,
}
use rac3011_api.Events.Gate.{
  GateEnv, Visitor, already_in, visitor, find_event, find_checkin, set_nx, member_or_throw,
  scan_pass, resolve_token, resolve_visitor, gate_check, find_member_checkin, is_full, admit,
  check_in, new_checkin,
}
use rac3011_api.Events.Gate.Visitors.{
  set_nx-cases, scan_pass-fresh, scan_pass-used_in, scan_pass-used_out,
}
use rac3011_api.Events.Gate.Admission.{
  Outcome, finish, check_in-finish, check_in-Outcome, admit-refused, admit-there, admit-full,
  admit-clash, admit-entered,
}

module _ {E C V R : Type 0} (stores : Stores E C V R) (db : ClubClient) (env : GateEnv C)
    (event_id : String) where
  passes-admit :
      (ctx : RequestContext) (event : EventRow) (m : Option String) (name : Option (List ℕ))
      (club_id : String) (method : CheckinMethod) (w : World E C V R)
      → (admit stores db env ctx event_id event m name club_id method w).1.passes ≡ w.passes
  unfolding admit
  passes-admit ctx event m name club_id method w =
      let row = new_checkin stores db env ctx.user_id event_id m name club_id method w.checkins in
      elim (Result-cases (gate_check stores db env ctx.access event)) [
        | inl (e, refused) ↦
            ap (λ r. r.1.passes)
              (admit-refused stores db env ctx event_id event m name club_id method w e refused)
        | inr (_, allowed) ↦ elim (Option-cases (find_member_checkin stores db env event_id m w)) [
          | inr (old, there) ↦
              ap (λ r. r.1.passes)
                (admit-there stores db env ctx event_id event m name club_id method w allowed old
                  there)
          | inl absent ↦ elim (Bool-cases (is_full stores db env event_id event w)) [
            | inl full ↦
                ap (λ r. r.1.passes)
                  (admit-full stores db env ctx event_id event m name club_id method w allowed
                    absent full)
            | inr room ↦ elim (Option-cases (stores.checkins.create row w.checkins)) [
              | inl clash ↦
                  ap (λ r. r.1.passes)
                    (admit-clash stores db env ctx event_id event m name club_id method w allowed
                      absent room clash)
              | inr (s, made) ↦
                  ap (λ r. r.1.passes)
                    (admit-entered stores db env ctx event_id event m name club_id method w allowed
                      absent s room made)
            ]
          ]
        ]
      ]

  passes-finish :
      (ctx : RequestContext) (event : EventRow) (r : Result Visitor) (w : World E C V R)
      → (finish stores db env ctx event_id event (r, w)).1.passes ≡ w.passes
  unfolding finish
  passes-finish ctx event (err e) w = refl
  passes-finish ctx event (ok (already_in row)) w = refl
  passes-finish ctx event (ok (visitor m name club_id method)) w =
      passes-admit ctx event m name club_id method w

  passes-member_or_throw :
      (member : Option Member) (method : CheckinMethod) (w : World E C V R)
      → (member_or_throw stores db env member method w).1 ≡ w
  passes-member_or_throw none method w = refl
  passes-member_or_throw (some m) method w = refl

  module _ (passes : PassStore R) (redis : stores.passes ≡ some passes) (payload : Payload)
      (here : (payload.eid == event_id) ≡ true) where
    used_by_set_nx :
        (w w1 : World E C V R)
        → set_nx stores db env (some passes) payload.jti w ≡ (ok true, w1)
        → passes.used w1.passes payload.jti ≡ true
    unfolding set_nx
    used_by_set_nx w w1 fresh = elim (Option-cases (passes.set_nx payload.jti w.passes)) [
      | inl used ↦ absurd (ground (arith, fresh, used))
      | inr (r, made) ↦
          let e : record w { passes = r } ≡ w1 = ground (arith, fresh, made) in
          ap (λ v. passes.used v.passes payload.jti) (sym e)
          ∙ passes.used_after payload.jti w.passes r payload.jti made
          ∙ ground (arith, eq_iff payload.jti payload.jti)
    ]

    used_before_set_nx :
        (w : World E C V R)
        → set_nx stores db env (some passes) payload.jti w ≡ (ok false, w)
        → passes.used w.passes payload.jti ≡ true
    unfolding set_nx
    used_before_set_nx w used = elim (Option-cases (passes.set_nx payload.jti w.passes)) [
      | inl taken ↦ ground (arith, taken, passes.set_nx_used payload.jti w.passes)
      | inr (r, made) ↦ absurd (ground (arith, used, made))
    ]

    by_redis :
        (w : World E C V R)
        → set_nx stores db env stores.passes payload.jti w
          ≡ set_nx stores db env (some passes) payload.jti w
    by_redis w = ap (λ o. set_nx stores db env o payload.jti w) redis

    used_by_scan :
        (w : World E C V R)
        → passes.used (scan_pass stores db env event_id payload w).1.passes payload.jti ≡ true
    used_by_scan w = elim (set_nx-cases stores db env (some passes) payload.jti w) [
      | inl (w1, fresh, same) ↦
          let scanned =
            scan_pass-fresh stores db env event_id payload w here w1 (by_redis w ∙ fresh) in
          let kept = passes-member_or_throw (env.find_member_by_id payload.mid) qr w1 in
          ap (λ r. passes.used r.1.passes payload.jti) scanned
          ∙ ap (λ v. passes.used v.passes payload.jti) kept
          ∙ used_by_set_nx w w1 fresh
      | inr used ↦ elim (Option-cases (find_checkin stores db env event_id payload.mid w)) [
        | inl out ↦
            ap (λ r. passes.used r.1.passes payload.jti)
              (scan_pass-used_out stores db env event_id payload w here (by_redis w ∙ used) out)
            ∙ used_before_set_nx w used
        | inr (row, found) ↦
            ap (λ r. passes.used r.1.passes payload.jti)
              (scan_pass-used_in stores db env event_id payload w here row (by_redis w ∙ used)
                found)
            ∙ used_before_set_nx w used
      ]
    ]

    set_nx-used :
        (w : World E C V R)
        → passes.used w.passes payload.jti ≡ true
        → set_nx stores db env stores.passes payload.jti w ≡ (ok false, w)
    unfolding set_nx
    set_nx-used w used = rw redis (elim (Option-cases (passes.set_nx payload.jti w.passes)) [
      | inl taken ↦ ground (arith, taken)
      | inr (r, made) ↦ absurd (ground (arith, made, used, passes.set_nx_used payload.jti w.passes))
    ])

    -- What a scan of a used pass comes to, by whether its member has checked in.
    abbrev pub replayed : Option CheckinRow → Result (CheckinRow × Bool)
    replayed none = err (conflict token_replayed)
    replayed (some row) = ok (row, true)

    module _ (token : List ℕ) (signed : env.verify token ≡ some payload) (input : CheckinInput)
        (scanned : input.qr_token ≡ some token) (event : EventRow) where
      resolve-pass :
          (w : World E C V R)
          → resolve_visitor stores db env event_id event input w
            ≡ scan_pass stores db env event_id payload w
      unfolding resolve_visitor resolve_token
      resolve-pass w = ground (arith, scanned, signed)

      used_by_check_in :
          (ctx : RequestContext) (w : World E C V R)
          → find_event stores db env event_id w ≡ some event
          → passes.used (check_in stores db env ctx event_id input w).1.passes payload.jti ≡ true
      used_by_check_in ctx w found =
          let (r, w1) = scan_pass stores db env event_id payload w in
          ap (λ x. passes.used x.1.passes payload.jti)
            (check_in-finish stores db env ctx event_id input w event found
              ∙ ap (finish stores db env ctx event_id event) (resolve-pass w))
          ∙ ap (λ p. passes.used p payload.jti) (passes-finish ctx event r w1)
          ∙ used_by_scan w

      check_in-used :
          (ctx : RequestContext) (w : World E C V R)
          → find_event stores db env event_id w ≡ some event
          → passes.used w.passes payload.jti ≡ true
          → check_in stores db env ctx event_id input w
            ≡ (replayed (find_checkin stores db env event_id payload.mid w), w)
      unfolding finish
      check_in-used ctx w found used =
          check_in-finish stores db env ctx event_id input w event found
          ∙ ap (finish stores db env ctx event_id event) (resolve-pass w)
          ∙ elim (Option-cases (find_checkin stores db env event_id payload.mid w)) [
            | inl out ↦
                ap (finish stores db env ctx event_id event) (
                  scan_pass-used_out stores db env event_id payload w here (set_nx-used w used) out)
                ∙ ground (arith, out)
            | inr (row, there) ↦
                ap (finish stores db env ctx event_id event) (
                  scan_pass-used_in stores db env event_id payload w here row (set_nx-used w used)
                    there)
                ∙ ground (arith, there)
          ]

      event_kept :
          (w w' : World E C V R) (ctx : RequestContext) (result : Result (CheckinRow × Bool))
          → Outcome stores db env ctx event_id w result w'
          → w'.events ≡ w.events
      event_kept w w' ctx (err e) same = ap World.events same
      event_kept w w' ctx (ok (row, true)) (same, there) = ap World.events same
      event_kept w w' ctx (ok (row, false)) new = new.events

      -- With Redis: once a valid pass for the event has been scanned at the event, whatever came of
      -- that scan, a second scan changes nothing. It returns the check-in of the member of the pass
      -- if there is one by then, and is refused as replayed otherwise, also where the first scan was
      -- refused for want of room or of a permission.
      pub check_in-twice :
          (first second : RequestContext) (w : World E C V R)
          → find_event stores db env event_id w ≡ some event
          → let w' = (check_in stores db env first event_id input w).1 in
            check_in stores db env second event_id input w'
            ≡ (replayed (find_checkin stores db env event_id payload.mid w'), w')
      check_in-twice first second w found =
          let w' = (check_in stores db env first event_id input w).1 in
          let kept =
            event_kept w w' first _ (check_in-Outcome stores db env first event_id input w) in
          check_in-used second w' (ap (stores.events.find_first λ r. r.id == event_id) kept ∙ found)
            (used_by_check_in first w found)
