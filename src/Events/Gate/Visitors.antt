-- ===== src/Events/Gate/Visitors.antt =====
-- src/events/events-admin.service.ts (checkin): what a check-in comes to.
use rac3011_api.Base.{
  ℕ, String, ◌≡◌, refl, true, false, ◌⊎◌, Option, none, some, List, ◌==◌, arith, truthy?, Result,
  ok, err, bad_request, conflict, token_replayed, Bool-cases, Option-cases, inl, inr,
}
use rac3011_api.Access.Scope.{ClubClient}
use rac3011_api.Events.Types.{
  EventRow, CheckinRow, CheckinMethod, qr, manual, CheckinInput, Member, Payload, PassStore, Stores,
  World,
}
use rac3011_api.Events.Gate.{
  GateEnv, Visitor, already_in, visitor, find_checkin, set_nx, member_or_throw, scan_pass,
  resolve_club, register_walk_in, resolve_token, resolve_visitor,
}

module _ {E C V R : Type 0} (stores : Stores E C V R) (db : ClubClient) (env : GateEnv C) where
  -- Only the store of used passes may differ.
  abbrev pub SameRows : World E C V R → World E C V R → Type 0
  SameRows w w' = w' ≡ record w { passes = w'.passes }

  abbrev pub Resolved : String → World E C V R → Result Visitor → World E C V R → Type 0
  Resolved event_id w (ok (already_in row)) w1 =
      SameRows w w1
      × ((member_id : String) × (find_checkin stores db env event_id member_id w1 ≡ some row))
  Resolved event_id w (ok (visitor m n c q)) w1 = SameRows w w1
  Resolved event_id w (err e) w1 = SameRows w w1

  Resolved-of :
      (event_id : String) (w w1 : World E C V R) (result : Result Visitor)
      (r : Result Visitor × World E C V R)
      → r ≡ (result, w1)
      → Resolved event_id w result w1
      → Resolved event_id w r.0 r.1
  Resolved-of event_id w w1 result r e h = rw e h

  member_or_throw-Resolved :
      (event_id : String) (w w1 : World E C V R) (member : Option Member) (method : CheckinMethod)
      → SameRows w w1
      → let (r, w2) = member_or_throw stores db env member method w1 in Resolved event_id w r w2
  member_or_throw-Resolved event_id w w1 none method same = same
  member_or_throw-Resolved event_id w w1 (some m) method same = same

  module _ (event_id : String) (payload : Payload) (w : World E C V R) where
    scan_pass-elsewhere :
        (payload.eid == event_id) ≡ false
        → scan_pass stores db env event_id payload w ≡ (err bad_request, w)
    unfolding scan_pass
    scan_pass-elsewhere other = ground arith

    module _ (here : (payload.eid == event_id) ≡ true) where
      pub scan_pass-fresh :
          (w1 : World E C V R)
          → set_nx stores db env stores.passes payload.jti w ≡ (ok true, w1)
          → scan_pass stores db env event_id payload w
            ≡ member_or_throw stores db env (env.find_member_by_id payload.mid) qr w1
      unfolding scan_pass
      scan_pass-fresh w1 fresh = ground arith

      pub scan_pass-used_in :
          (row : CheckinRow)
          → set_nx stores db env stores.passes payload.jti w ≡ (ok false, w)
          → find_checkin stores db env event_id payload.mid w ≡ some row
          → scan_pass stores db env event_id payload w ≡ (ok (already_in row), w)
      unfolding scan_pass
      scan_pass-used_in row used found = ground arith

      pub scan_pass-used_out :
          set_nx stores db env stores.passes payload.jti w ≡ (ok false, w)
          → find_checkin stores db env event_id payload.mid w ≡ none
          → scan_pass stores db env event_id payload w ≡ (err (conflict token_replayed), w)
      unfolding scan_pass
      scan_pass-used_out used found = ground arith

  pub set_nx-cases :
      (passes : Option (PassStore R)) (jti : String) (w : World E C V R)
      → ((w1 : World E C V R) × (set_nx stores db env passes jti w ≡ (ok true, w1)) × SameRows w w1)
        ⊎ (set_nx stores db env passes jti w ≡ (ok false, w))
  unfolding set_nx
  set_nx-cases none jti w = inl (w, refl, refl)
  set_nx-cases (some passes) jti w = elim (Option-cases (passes.set_nx jti w.passes)) [
    | inl used ↦ inr (ground (arith, used))
    | inr (r, fresh) ↦ inl (record w { passes = r }, ground (arith, fresh), refl)
  ]

  scan_pass-Resolved :
      (event_id : String) (payload : Payload) (w : World E C V R)
      → let (r, w1) = scan_pass stores db env event_id payload w in Resolved event_id w r w1
  scan_pass-Resolved event_id payload w = elim (Bool-cases (payload.eid == event_id)) [
    | inr other ↦
        Resolved-of event_id w w (err bad_request) _ (scan_pass-elsewhere event_id payload w other)
          refl
    | inl here ↦ elim (set_nx-cases stores.passes payload.jti w) [
      | inl (w1, fresh, same) ↦
          rw (scan_pass-fresh event_id payload w here w1 fresh)
            (member_or_throw-Resolved event_id w w1 (env.find_member_by_id payload.mid) qr same)
      | inr used ↦ elim (Option-cases (find_checkin stores db env event_id payload.mid w)) [
        | inl out ↦
            Resolved-of event_id w w (err (conflict token_replayed)) _
              (scan_pass-used_out event_id payload w here used out) refl
        | inr (row, found) ↦
            Resolved-of event_id w w (ok (already_in row)) _
              (scan_pass-used_in event_id payload w here row used found)
              (refl, (payload.mid, found))
      ]
    ]
  ]

  resolve_token-Resolved :
      (event_id : String) (token : List ℕ) (w : World E C V R)
      → let (r, w1) = resolve_token stores db env event_id token w in Resolved event_id w r w1
  unfolding resolve_token
  resolve_token-Resolved event_id token w = elim (Option-cases (env.verify token)) [
    | inl static ↦
        rw (static, resolve_token)
          (member_or_throw-Resolved event_id w w (env.find_member_by_qr_token token) qr refl)
    | inr (payload, signed) ↦ rw (signed, resolve_token) (scan_pass-Resolved event_id payload w)
  ]

  register_walk_in-Resolved :
      (event_id : String) (event : EventRow) (name : List ℕ) (club_id : String) (w : World E C V R)
      → let (r, w1) = register_walk_in stores db env event name club_id w in
        Resolved event_id w r w1
  unfolding register_walk_in
  register_walk_in-Resolved event_id event name club_id w =
      elim (Bool-cases (truthy? (resolve_club stores db env event club_id))) [
        | inl club ↦ rw club refl
        | inr no_club ↦ rw no_club refl
      ]

  -- Finding out who stands at the gate uses up a pass at most.
  pub resolve_visitor-Resolved :
      (event_id : String) (event : EventRow) (input : CheckinInput) (w : World E C V R)
      → let (r, w1) = resolve_visitor stores db env event_id event input w in
        Resolved event_id w r w1
  unfolding resolve_visitor
  resolve_visitor-Resolved event_id event input w = elim (Option-cases input.qr_token) [
    | inr (token, e) ↦ rw e (resolve_token-Resolved event_id token w)
    | inl e ↦ rw e (elim (Option-cases input.member_id) [
      | inr (id, e1) ↦
          rw e1 (member_or_throw-Resolved event_id w w (env.find_member_by_id id) manual refl)
      | inl e1 ↦ rw e1 (elim (Option-cases input.walk_in_name) [
        | inl e2 ↦ rw e2 refl
        | inr (name, e2) ↦ rw e2 (elim (Option-cases input.club_id) [
          | inl e3 ↦ rw e3 refl
          | inr (club_id, e3) ↦ rw e3 (register_walk_in-Resolved event_id event name club_id w)
        ])
      ])
    ])
  ]
