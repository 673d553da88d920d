-- ===== src/Ride/Sessions/Listing.antt =====
-- src/subdomains/ride/ride-auth.service.ts (listActiveSessions): the list has every session that has not
-- run out.
use rac3011_api.Base.{
  ℕ, ◌≡◌, refl, sym, ap, ◌∙◌, String, Bool, true, false, ◌&&◌, ◌||◌, some, List, [], ◌∷◌, arith,
  ltb, any, keep, text_eq, text_eq_iff, ◌==◌, eq_iff, if◌then◌else◌, get_key, set_key,
  get_key-set_key, Bool-cases, inl, inr, All,
}
use rac3011_api.Ride.Types.{ParticipantSessionRecord}
use rac3011_api.Ride.Sessions.{
  Memory, set_unexpired, insert_by_activity, sort_by_activity, unexpired,
}

any-insert :
    (p : ParticipantSessionRecord → Bool) (s : ParticipantSessionRecord)
    (ss : List ParticipantSessionRecord)
    → any p (insert_by_activity s ss) ≡ (p s || any p ss)
unfolding insert_by_activity
any-insert p s [] = refl
any-insert p s (t ∷ ts) = ground (arith, any-insert p s ts)

pub any-sort :
    (p : ParticipantSessionRecord → Bool) (ss : List ParticipantSessionRecord)
    → any p (sort_by_activity ss) ≡ any p ss
unfolding sort_by_activity
any-sort p [] = refl
any-sort p (s ∷ ss) = any-insert p s (sort_by_activity ss) ∙ ap (λ b. p s || b) (any-sort p ss)

pub any-keep_both :
    (p q : ParticipantSessionRecord → Bool) (ss : List ParticipantSessionRecord)
    → any (λ s. p s && q s) ss ≡ true
    → any p (keep q ss) ≡ true
any-keep_both p q [] h = h
any-keep_both p q (s ∷ ss) h = ground (arith, h, any-keep_both p q ss)

get_key-unexpired :
    (now : ℕ) (sid : List ℕ) (s : ParticipantSessionRecord) (m : Memory)
    → get_key sid m ≡ some s
    → ltb now s.expires_at ≡ true
    → get_key sid (unexpired now m) ≡ some s
get_key-unexpired now sid s [] e h = e
get_key-unexpired now sid s ((k, t) ∷ m) e h = ground (arith, get_key-unexpired now sid s m)

-- The records listed under an id are one record.
abbrev pub Only : List ℕ → ParticipantSessionRecord → List ParticipantSessionRecord → Type 0
Only sid s xs = All (λ x. x.session_id ≡ sid → x ≡ s) xs

get_key-put :
    (b : Bool) (sid : List ℕ) (s x : ParticipantSessionRecord) (m : Memory)
    → (x.session_id ≡ sid → x ≡ s)
    → get_key sid m ≡ some s
    → get_key sid (if b then set_key x.session_id x m else m) ≡ some s
get_key-put false sid s x m same e = e
get_key-put true sid s x m same e =
    get_key-set_key sid x.session_id x m ∙ (elim (Bool-cases (text_eq x.session_id sid)) [
      | inl found ↦ rw found (ap some (same ((text_eq_iff x.session_id sid).0 found)))
      | inr other ↦ rw other e
    ])

get_key-put_own :
    (b : Bool) (sid : List ℕ) (s x : ParticipantSessionRecord) (m : Memory)
    → b ≡ true
    → text_eq x.session_id sid ≡ true
    → x ≡ s
    → get_key sid (if b then set_key x.session_id x m else m) ≡ some s
get_key-put_own b sid s x m active found same =
    rw active (get_key-set_key sid x.session_id x m ∙ rw found (ap some same))

get_key-set_kept :
    (now : ℕ) (sid : List ℕ) (s : ParticipantSessionRecord) (xs : List ParticipantSessionRecord)
    (m : Memory)
    → Only sid s xs
    → get_key sid m ≡ some s
    → get_key sid (set_unexpired now xs m) ≡ some s
unfolding set_unexpired
get_key-set_kept now sid s [] m only e = e
get_key-set_kept now sid s (x ∷ xs) m (same, only) e =
    get_key-set_kept now sid s xs _ only (get_key-put _ sid s x m same e)

-- What Redis has under an id overrides what memory has.
pub get_key-set_unexpired :
    (now : ℕ) (sid : List ℕ) (s : ParticipantSessionRecord) (xs : List ParticipantSessionRecord)
    (m : Memory)
    → ltb now s.expires_at ≡ true
    → Only sid s xs
    → any (λ x. text_eq x.session_id sid) xs ≡ true
    → get_key sid (set_unexpired now xs m) ≡ some s
unfolding set_unexpired
get_key-set_unexpired now sid s [] m active only h = cc
get_key-set_unexpired now sid s (x ∷ xs) m active (same, only) h =
    elim (Bool-cases (text_eq x.session_id sid)) [
      | inl found ↦
          let own : x ≡ s = same ((text_eq_iff x.session_id sid).0 found) in
          get_key-set_kept now sid s xs _ only
            (get_key-put_own _ sid s x m (ap (λ y. ltb now y.expires_at) own ∙ active) found own)
      | inr other ↦ get_key-set_unexpired now sid s xs _ active only (ground (arith, h, other))
    ]

unfoldable pub is_session_of : List ℕ → String → ParticipantSessionRecord → Bool
is_session_of sid participant_id s = text_eq s.session_id sid && s.participant_id == participant_id

pub session_id_of :
    (sid : List ℕ) (s : ParticipantSessionRecord) (m : Memory)
    → All (λ (k, x). x.session_id ≡ k) m
    → get_key sid m ≡ some s
    → s.session_id ≡ sid
session_id_of sid s [] h e = cc
session_id_of sid s ((k, x) ∷ m) (own, h) e = elim (Bool-cases (text_eq k sid)) [
  | inl found ↦
      let same : x ≡ s = ground (arith, e, found) in
      ap (λ y. y.session_id) (sym same) ∙ own ∙ (text_eq_iff k sid).0 found
  | inr other ↦ session_id_of sid s m h (ground (arith, e, other))
]

pub is_session_of-own :
    (sid : List ℕ) (s : ParticipantSessionRecord)
    → s.session_id ≡ sid
    → is_session_of sid s.participant_id s ≡ true
unfolding is_session_of
is_session_of-own sid s e =
    ground (arith, text_eq_iff s.session_id sid, e, eq_iff s.participant_id s.participant_id)
