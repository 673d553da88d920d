-- ===== src/Action/Triples.antt =====
-- What holds after an action that starts where a precondition holds: `Q` of the value and the world if
-- it returns, `E` of the world if it throws.
use rac3011_api.Base.{
  Bool, true, false, Option, none, some, Result, ok, err, HttpError, internal, ◌≡◌, refl,
  if◌then◌else◌,
}
use rac3011_api.Action.{
  Action, pure, raise_if, lift, gets, or_raise, modify, transaction, ◌>>=◌, ◌>>◌,
}

abbrev pub Post : {W A : Type 0} → (A → W → Type 0) → (W → Type 0) → Result A × W → Type 0
Post Q E (ok a, w) = Q a w
Post Q E (err e, w) = E w

pub record Triple {W A : Type 0} (P : W → Type 0) (m : Action W A) (Q : A → W → Type 0)
    (E : W → Type 0) : Type 0 where
  pub after : (w : W) → P w → Post Q E (m w)

module _ {W : Type 0} {E : W → Type 0} where
  after_bind :
      {A B : Type 0} (f : A → Action W B) (Q : A → W → Type 0) (R : B → W → Type 0) (r : Result A)
      (w' : W)
      → ((a : A) → Triple (Q a) (f a) R E)
      → Post Q E (r, w')
      → Post R E (elim r [ ok a ↦ f a w' | err e ↦ (err e, w') ])
  after_bind f Q R (ok a) w' g h = (g a).after w' h
  after_bind f Q R (err e) w' g h = h

  pub Triple-bind :
      {A B : Type 0} {P : W → Type 0} {m : Action W A} {f : A → Action W B} {Q : A → W → Type 0}
      {R : B → W → Type 0}
      → Triple P m Q E
      → ((a : A) → Triple (Q a) (f a) R E)
      → Triple P (m >>= f) R E
  Triple-bind {m} {f} {Q} {R} first next = record {
    after = λ w h. after_bind f Q R (m w).0 (m w).1 next (first.after w h);
  }

  -- `m >> k`
  pub Triple-seq :
      {B : Type 0} {P : W → Type 0} {m : Action W (Unit {0})} {k : Action W B} {Q : W → Type 0}
      {R : B → W → Type 0}
      → Triple P m (λ _. Q) E
      → Triple Q k R E
      → Triple P (m >> k) R E
  Triple-seq {m} {k} {Q} {R} first next = record {
    after = λ w h. after_bind (λ _. k) (λ _. Q) R (m w).0 (m w).1 (λ _. next) (first.after w h);
  }

  module _ {P : W → Type 0} where
    pub Triple-pure :
        {A : Type 0} (a : A) {Q : A → W → Type 0} → ((w : W) → P w → Q a w) → Triple P (pure a) Q E
    Triple-pure a h = record { after = h }

    pub Triple-gets :
        {A : Type 0} (f : W → A) {Q : A → W → Type 0}
        → ((w : W) → P w → Q (f w) w)
        → Triple P (gets f) Q E
    Triple-gets f h = record { after = h }

    pub Triple-modify :
        (f : W → W) {Q : W → Type 0} → ((w : W) → P w → Q (f w)) → Triple P (modify f) (λ _. Q) E
    Triple-modify f h = record { after = h }

  -- Where the precondition holds as well if it throws.
  module _ {P : W → Type 0} (thrown : (w : W) → P w → E w) where
    after_raise_if : (b : Bool) (e : HttpError) (w : W) → P w → Post (λ _. P) E (raise_if b e w)
    after_raise_if true e w h = thrown w h
    after_raise_if false e w h = h

    pub Triple-raise_if : (b : Bool) (e : HttpError) → Triple P (raise_if b e) (λ _. P) E
    Triple-raise_if b e = record { after = after_raise_if b e }

    after_or_raise :
        {A : Type 0} (o : Option A) (e : HttpError) (w : W)
        → P w
        → Post (λ a v. (o ≡ some a) × P v) E (or_raise o e w)
    after_or_raise none e w h = thrown w h
    after_or_raise (some a) e w h = (refl, h)

    pub Triple-or_raise :
        {A : Type 0} (o : Option A) (e : HttpError)
        → Triple P (or_raise o e) (λ a w. (o ≡ some a) × P w) E
    Triple-or_raise o e = record { after = after_or_raise o e }

    after_lift : {A : Type 0} (r : Result A) (w : W) → P w → Post (λ _. P) E (lift r w)
    after_lift (ok a) w h = h
    after_lift (err e) w h = thrown w h

    pub Triple-lift : {A : Type 0} (r : Result A) → Triple P (lift r) (λ _. P) E
    Triple-lift r = record { after = after_lift r }

  -- `prisma.$transaction`, which takes back what was written if it throws.
  pub Triple-transaction :
      {A : Type 0} {P : W → Type 0} {Q : A → W → Type 0} (m : Action W A)
      → ((w : W) → P w → E w)
      → Triple P m Q (λ _. Unit)
      → Triple P (transaction m) Q E
  Triple-transaction {A} {P} {Q} m thrown h = record {
    after = λ w start. go w start (m w).0 (m w).1 (h.after w start);
  }
    where
      go :
          (w : W)
          → P w
          → (r : Result A) (w' : W) → Post Q (λ _. Unit) (r, w')
          → Post Q E (elim r [ ok b ↦ (ok b, w') | err e ↦ (err e, w) ])
      go w start (ok b) w' done = done
      go w start (err e) w' done = thrown w start

  pub Triple-if :
      {A : Type 0} {P : W → Type 0} {Q : A → W → Type 0} (b : Bool) {m k : Action W A}
      → Triple P m Q E
      → Triple P k Q E
      → Triple P (if b then m else k) Q E
  Triple-if true h k = h
  Triple-if false h k = k

  -- `prisma.create`: the value is returned with the new table put in, or an error is thrown.
  pub Triple-create :
      {A S : Type 0} {P : W → Type 0} {Q : A → W → Type 0} (made : W → Option S) (row : W → A)
      (put : S → W → W)
      → ((w : W) → P w → E w)
      → ((w : W) (s : S) → P w → made w ≡ some s → Q (row w) (put s w))
      → Triple P
          (λ w. elim (made w) [ none ↦ (err internal, w) | some s ↦ (ok (row w), put s w) ])
          Q
          E
  Triple-create {S} {P} {Q} made row put thrown step = record {
    after = λ w h. go w (made w) refl h;
  }
    where
      go :
          (w : W) (o : Option S)
          → made w ≡ o
          → P w
          → Post Q E (elim o [ none ↦ (err internal, w) | some s ↦ (ok (row w), put s w) ])
      go w none e h = thrown w h
      go w (some s) e h = step w s h e

-- What holds of the world whether the action returned or threw.
pub Post_both :
    {W A : Type 0} (P : W → Type 0) (after : Result A × W) → Post (λ _. P) P after → P after.1
Post_both P (ok a, w) h = h
Post_both P (err e, w) h = h
