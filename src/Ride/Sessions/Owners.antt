-- ===== src/Ride/Sessions/Owners.antt =====
-- src/subdomains/ride/ride-auth.service.ts: the entries of memory and of Redis hold sessions of their own
-- ids.
use rac3011_api.Base.{
  ◌≤◌, ◌+◌, ◌*◌, ℕ, zero, suc, ◌≡◌, sym, ap, ◌∙◌, not, Option, none, some, List, [], ◌∷◌, arith,
  All, All-keep, keep, length, leb, ltb, text_eq, text_eq_iff, set_key, delete_key, Bool-cases, inl,
  inr,
}
use rac3011_api.Ride.Types.{ParticipantSessionRecord, Redis, max_memory_sessions}
use rac3011_api.Ride.Sessions.{Memory, drop_oldest, evict_expired_memory_sessions, ttl}

abbrev pub Owns : List ℕ × ParticipantSessionRecord → Type 0
Owns (sid, s) = s.session_id ≡ sid

pub Owns-set_key :
    (sid : List ℕ) (s : ParticipantSessionRecord) (m : Memory)
    → All Owns m
    → s.session_id ≡ sid
    → All Owns (set_key sid s m)
Owns-set_key sid s [] h own = (own, tt)
Owns-set_key sid s ((k, x) ∷ m) (e, h) own = elim (Bool-cases (text_eq k sid)) [
  | inl old ↦ rw old (own, h)
  | inr other ↦ rw other (e, Owns-set_key sid s m h own)
]

pub Owns-delete_key : (sid : List ℕ) (m : Memory) → All Owns m → All Owns (delete_key sid m)
Owns-delete_key sid [] h = tt
Owns-delete_key sid ((k, x) ∷ m) (e, h) = elim (Bool-cases (text_eq k sid)) [
  | inl old ↦ rw old (Owns-delete_key sid m h)
  | inr other ↦ rw other (e, Owns-delete_key sid m h)
]

Owns-drop_oldest : (n : ℕ) (m : Memory) → All Owns m → All Owns (drop_oldest n m)
unfolding drop_oldest
Owns-drop_oldest zero m h = h
Owns-drop_oldest (suc n) [] h = h
Owns-drop_oldest (suc n) (x ∷ m) (e, h) = Owns-drop_oldest n m h

pub Owns-evict :
    (now : ℕ) (m : Memory) → All Owns m → All Owns (evict_expired_memory_sessions now m)
unfolding evict_expired_memory_sessions
Owns-evict now m h =
    let kept = keep (λ (sid, rec). not (ltb rec.expires_at now)) m in
    let all_kept : All Owns kept =
      All-keep (λ (sid, rec). not (ltb rec.expires_at now)) (λ x p own. own) m h in
    elim (Bool-cases (leb max_memory_sessions (length kept))) [
      | inl full ↦ rw full (Owns-drop_oldest _ kept all_kept)
      | inr room ↦ rw room all_kept
    ]

module _ {R : Type 0} where
  abbrev pub RedisOwns : Option (Redis R) → R → Type 0
  RedisOwns none r = Unit
  RedisOwns (some c) r =
      (sid : List ℕ) (s : ParticipantSessionRecord)
      → c.stored r sid ≡ some s
      → (s.session_id ≡ sid) × (s.expires_at ≤ c.runs_out r sid)

  pub RedisOwns-set :
      (c : Redis R) (now : ℕ) (sid : List ℕ) (s : ParticipantSessionRecord) (ttl : ℕ) (r r' : R)
      → c.set now sid s ttl r ≡ some r'
      → s.session_id ≡ sid
      → s.expires_at ≤ now + ttl * 1000
      → RedisOwns (some c) r
      → RedisOwns (some c) r'
  RedisOwns-set c now sid s ttl r r' done own lasts h j x at_j = elim (Bool-cases (text_eq sid j)) [
    | inl same ↦
        let both : some s ≡ some x =
          sym (c.set_stored now sid s ttl r r' j done ∙ rw same) ∙ at_j in
        let here : s ≡ x = ground (arith, both) in
        let until : c.runs_out r' j ≡ now + ttl * 1000 =
          c.set_runs_out now sid s ttl r r' j done ∙ rw same in
        let expires : s.expires_at ≡ x.expires_at = ap (λ y. y.expires_at) here in
        (
          ap (λ y. y.session_id) (sym here) ∙ own ∙ (text_eq_iff sid j).0 same,
          ground (arith, until, expires, lasts),
        )
    | inr other ↦
        let (own_j, lasts_j) =
          h j x (sym (c.set_stored now sid s ttl r r' j done ∙ rw other) ∙ at_j) in
        let until : c.runs_out r' j ≡ c.runs_out r j =
          c.set_runs_out now sid s ttl r r' j done ∙ rw other in
        (own_j, ground (arith, until, lasts_j))
  ]

  pub RedisOwns-del :
      (c : Redis R) (sid : List ℕ) (r r' : R)
      → c.del sid r ≡ some r'
      → RedisOwns (some c) r
      → RedisOwns (some c) r'
  RedisOwns-del c sid r r' done h j x at_j = elim (Bool-cases (text_eq sid j)) [
    | inl same ↦ absurd (ground (arith, c.del_stored sid r r' j done, at_j, same))
    | inr other ↦
        let (own_j, lasts_j) = h j x (ground (arith, c.del_stored sid r r' j done, at_j, other)) in
        (own_j, ground (arith, c.del_runs_out sid r r' j done other, lasts_j))
  ]
