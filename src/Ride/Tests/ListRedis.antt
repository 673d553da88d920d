-- ===== src/Ride/Tests/ListRedis.antt =====
-- Redis as a list of entries with the times up to which they are to stay, for runs: it meets the laws.
-- It drops no entry on its own.
use mathlib.Core.Path.{subst}
use rac3011_api.Base.{
  ℕ, ◌≡◌, refl, ap, sym, ◌∙◌, Bool, true, false, ◌+◌, ◌*◌, Option-cases, Option, none, some, List,
  [], ◌∷◌, arith, any, All, get_key, set_key, delete_key, get_key-set_key, get_key-delete_key,
  text_eq, text_eq_iff, Bool-cases, inl, inr, if◌then◌else◌,
}
use rac3011_api.Ride.Types.{ParticipantSessionRecord, Redis}

-- The entries, each a value and the time up to which it is to stay.
abbrev pub Entries : Type 0
Entries = List (List ℕ × (ParticipantSessionRecord × ℕ))

abbrev value_of : Option (ParticipantSessionRecord × ℕ) → Option ParticipantSessionRecord
value_of none = none
value_of (some (x, until)) = some x

abbrev until_of : Option (ParticipantSessionRecord × ℕ) → ℕ
until_of none = 0
until_of (some (x, until)) = until

abbrev stored_in : Entries → List ℕ → Option ParticipantSessionRecord
stored_in m key = value_of (get_key key m)

abbrev runs_out : Entries → List ℕ → ℕ
runs_out m key = until_of (get_key key m)

value_of-if :
    (b : Bool) (x : ParticipantSessionRecord) (until : ℕ)
    (old : Option (ParticipantSessionRecord × ℕ))
    → value_of (if b then some (x, until) else old) ≡ (if b then some x else value_of old)
value_of-if true x until old = refl
value_of-if false x until old = refl

until_of-if :
    (b : Bool) (x : ParticipantSessionRecord) (until : ℕ)
    (old : Option (ParticipantSessionRecord × ℕ))
    → until_of (if b then some (x, until) else old) ≡ (if b then until else until_of old)
until_of-if true x until old = refl
until_of-if false x until old = refl

value_of-none :
    (b : Bool) (old : Option (ParticipantSessionRecord × ℕ))
    → value_of (if b then none else old) ≡ (if b then none else value_of old)
value_of-none true old = refl
value_of-none false old = refl

abbrev add :
    Option ParticipantSessionRecord → List ParticipantSessionRecord → List ParticipantSessionRecord
add none xs = xs
add (some x) xs = x ∷ xs

-- The entries of the keys of `m`, as they are in `all`.
abbrev listed : Entries → Entries → List ParticipantSessionRecord
listed all [] = []
listed all ((k, v) ∷ m) = add (stored_in all k) (listed all m)

All-add :
    (P : ParticipantSessionRecord → Type 0) (o : Option ParticipantSessionRecord)
    (xs : List ParticipantSessionRecord)
    → ((x : ParticipantSessionRecord) → o ≡ some x → P x)
    → All P xs
    → All P (add o xs)
All-add P none xs f h = h
All-add P (some x) xs f h = (f x refl, h)

any-add :
    (p : ParticipantSessionRecord → Bool) (o : Option ParticipantSessionRecord)
    (xs : List ParticipantSessionRecord)
    → any p xs ≡ true
    → any p (add o xs) ≡ true
any-add p none xs h = h
any-add p (some x) xs h = ground (arith, h)

any-add_own :
    (p : ParticipantSessionRecord → Bool) (o : Option ParticipantSessionRecord)
    (xs : List ParticipantSessionRecord) (x : ParticipantSessionRecord)
    → o ≡ some x
    → p x ≡ true
    → any p (add o xs) ≡ true
any-add_own p o xs x e h = rw e (ground (arith, h))

listed_sound :
    (all m : Entries) → All (λ x. (key : List ℕ) × (stored_in all key ≡ some x)) (listed all m)
listed_sound all [] = tt
listed_sound all ((k, v) ∷ m) =
    All-add (λ x. (key : List ℕ) × (stored_in all key ≡ some x)) (stored_in all k) (listed all m)
      (λ x e. (k, e)) (listed_sound all m)

listed_complete :
    (all m : Entries) (key : List ℕ) (x : ParticipantSessionRecord)
    (y : ParticipantSessionRecord × ℕ) (p : ParticipantSessionRecord → Bool)
    → get_key key m ≡ some y
    → stored_in all key ≡ some x
    → p x ≡ true
    → any p (listed all m) ≡ true
listed_complete all [] key x y p e found h = cc
listed_complete all ((k, v) ∷ m) key x y p e found h = elim (Bool-cases (text_eq k key)) [
  | inl same ↦
      any-add_own p (stored_in all k) (listed all m) x
        (ap (stored_in all) ((text_eq_iff k key).0 same) ∙ found) h
  | inr other ↦
      any-add p (stored_in all k) (listed all m)
        (listed_complete all m key x y p (ground (arith, e, other)) found h)
]

abbrev get_from : ℕ → List ℕ → Entries → Option (Option ParticipantSessionRecord)
get_from now key m = some (stored_in m key)

pub get_stored :
    (now : ℕ) (key : List ℕ) (m : Entries) (x : ParticipantSessionRecord)
    → get_from now key m ≡ some (some x)
    → stored_in m key ≡ some x
get_stored now key m x h = cc

pub get_found :
    (key : List ℕ) (m : Entries) (found : Option ParticipantSessionRecord)
    (x : ParticipantSessionRecord)
    → get_from 0 key m ≡ some found
    → stored_in m key ≡ some x
    → found ≡ some x
get_found key m found x h e = cc

pub set_stored :
    (now : ℕ) (key : List ℕ) (x : ParticipantSessionRecord) (ttl : ℕ) (m m' : Entries) (j : List ℕ)
    → ◌≡◌ {A = Option Entries} (some (set_key key (x, now + ttl * 1000) m)) (some m')
    → stored_in m' j ≡ (if text_eq key j then some x else stored_in m j)
set_stored now key x ttl m m' j h =
    let made : set_key key (x, now + ttl * 1000) m ≡ m' = cc in
    ap (λ n. stored_in n j) (sym made)
    ∙ ap value_of (get_key-set_key j key (x, now + ttl * 1000) m)
    ∙ value_of-if (text_eq key j) x (now + ttl * 1000) (get_key j m)

pub set_runs_out :
    (now : ℕ) (key : List ℕ) (x : ParticipantSessionRecord) (ttl : ℕ) (m m' : Entries) (j : List ℕ)
    → ◌≡◌ {A = Option Entries} (some (set_key key (x, now + ttl * 1000) m)) (some m')
    → runs_out m' j ≡ (if text_eq key j then now + ttl * 1000 else runs_out m j)
set_runs_out now key x ttl m m' j h =
    let made : set_key key (x, now + ttl * 1000) m ≡ m' = cc in
    ap (λ n. runs_out n j) (sym made)
    ∙ ap until_of (get_key-set_key j key (x, now + ttl * 1000) m)
    ∙ until_of-if (text_eq key j) x (now + ttl * 1000) (get_key j m)

pub del_stored :
    (key : List ℕ) (m m' : Entries) (j : List ℕ)
    → ◌≡◌ {A = Option Entries} (some (delete_key key m)) (some m')
    → stored_in m' j ≡ (if text_eq key j then none else stored_in m j)
del_stored key m m' j h =
    let made : delete_key key m ≡ m' = cc in
    ap (λ n. stored_in n j) (sym made)
    ∙ ap value_of (get_key-delete_key j key m)
    ∙ value_of-none (text_eq key j) (get_key j m)

pub del_runs_out :
    (key : List ℕ) (m m' : Entries) (j : List ℕ)
    → ◌≡◌ {A = Option Entries} (some (delete_key key m)) (some m')
    → text_eq key j ≡ false
    → runs_out m' j ≡ runs_out m j
del_runs_out key m m' j h other =
    let made : delete_key key m ≡ m' = cc in
    ap (λ n. runs_out n j) (sym made)
    ∙ ap until_of {y = get_key j m} (get_key-delete_key j key m ∙ rw other)

pub list_sound :
    (m : Entries) (xs : List ParticipantSessionRecord)
    → some (listed m m) ≡ some xs
    → All (λ x. (key : List ℕ) × (stored_in m key ≡ some x)) xs
list_sound m xs h =
    let made : listed m m ≡ xs = cc in
    subst (All (λ x. (key : List ℕ) × (stored_in m key ≡ some x))) made (listed_sound m m)

pub list_stored :
    (m : Entries) (xs : List ParticipantSessionRecord) (key : List ℕ) (x : ParticipantSessionRecord)
    (p : ParticipantSessionRecord → Bool)
    → some (listed m m) ≡ some xs
    → stored_in m key ≡ some x
    → p x ≡ true
    → any p xs ≡ true
list_stored m xs key x p h e px =
    let made : listed m m ≡ xs = cc in
    elim (Option-cases (get_key key m)) [
      | inl missing ↦ absurd (ground (arith, e, missing))
      | inr (y, there) ↦ ap (any p) (sym made) ∙ listed_complete m m key x y p there e px
    ]

abbrev pub list_redis : Redis Entries
list_redis = record {
  get = get_from;
  set = λ now key x ttl m. some (set_key key (x, now + ttl * 1000) m);
  del = λ key m. some (delete_key key m);
  list = λ now m. some (listed m m);
  stored = stored_in;
  runs_out = runs_out;
  get_stored = get_stored;
  get_unexpired = λ now key m found x h e early. get_found key m found x h e;
  set_stored = set_stored;
  set_runs_out = set_runs_out;
  del_stored = λ key m m' j h. del_stored key m m' j h;
  del_runs_out = λ key m m' j h other. del_runs_out key m m' j h other;
  list_sound = λ now m xs h. list_sound m xs h;
  list_stored = λ now m xs key x p h e active px. list_stored m xs key x p h e px;
}

pub never_deleted :
    (key : List ℕ) (m m' : Entries) (j : List ℕ)
    → ◌≡◌ {A = Option Entries} none (some m')
    → stored_in m' j ≡ (if text_eq key j then none else stored_in m j)
never_deleted key m m' j h = cc

pub never_deleted_until :
    (key : List ℕ) (m m' : Entries) (j : List ℕ)
    → ◌≡◌ {A = Option Entries} none (some m')
    → text_eq key j ≡ false
    → runs_out m' j ≡ runs_out m j
never_deleted_until key m m' j h other = cc

-- The same, but that every deletion throws.
abbrev pub redis_without_del : Redis Entries
redis_without_del = record list_redis {
  del = λ key m. none;
  del_stored = never_deleted;
  del_runs_out = never_deleted_until;
}
