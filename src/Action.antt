-- ===== src/Action.antt =====
-- A handler as a function of the world: it returns or throws, and the world comes back either way,
-- since what was written stays written.
pub mod Triples
use rac3011_api.Base.{Bool, Option, none, some, Result, ok, err, HttpError, if◌then◌else◌, ◌≡◌, ap}

abbrev pub Action : Type 0 → Type 0 → Type 0
Action W A = W → Result A × W

module _ {W A : Type 0} where
  abbrev pub pure : A → Action W A
  pure a w = (ok a, w)

  abbrev pub raise : HttpError → Action W A
  raise e w = (err e, w)

  abbrev pub lift : Result A → Action W A
  lift r w = (r, w)

  abbrev pub gets : (W → A) → Action W A
  gets f w = (ok (f w), w)

  -- `if (!row) throw e`
  abbrev pub or_raise : Option A → HttpError → Action W A
  or_raise none e w = (err e, w)
  or_raise (some a) e w = (ok a, w)

infixl 5 ◌>>=◌ ◌>>◌
abbrev pub ◌>>=◌ : {W A B : Type 0} → Action W A → (A → Action W B) → Action W B
◌>>=◌ m f w = let (r, w') = m w in elim r [ ok a ↦ f a w' | err e ↦ (err e, w') ]

abbrev pub ◌>>◌ : {W B : Type 0} → Action W (Unit {0}) → Action W B → Action W B
m >> k = m >>= λ _. k

abbrev pub modify : {W : Type 0} → (W → W) → Action W (Unit {0})
modify f w = (ok tt, f w)

-- `if (b) throw e`
abbrev pub raise_if : {W : Type 0} → Bool → HttpError → Action W (Unit {0})
raise_if b e w = (if b then err e else ok tt, w)

-- `prisma.$transaction`: an error takes back what was written.
abbrev pub transaction : {W A : Type 0} → Action W A → Action W A
transaction m w = let (result, w') = m w in elim result [ ok a ↦ (ok a, w') | err e ↦ (err e, w) ]

-- A step that returns hands its value and its world on.
pub bind_returns :
    {W A B : Type 0} (m : Action W A) (f : A → Action W B) (a : A) (w w' : W)
    → m w ≡ (ok a, w')
    → (m >>= f) w ≡ f a w'
bind_returns m f a w w' h = ap (λ r. ((λ v. r) >>= f) w) h

pub bind_throws :
    {W A B : Type 0} (m : Action W A) (f : A → Action W B) (e : HttpError) (w w' : W)
    → m w ≡ (err e, w')
    → (m >>= f) w ≡ (err e, w')
bind_throws m f e w w' h = ap (λ r. ((λ v. r) >>= f) w) h
