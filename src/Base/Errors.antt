-- ===== src/Base/Errors.antt =====
-- The exceptions of @nestjs/common that the services throw, by status, with the code that
-- `common/errors/conflict.error.ts` attaches; message texts are left out.
use mathlib.Core.Bool.{Bool, true, false}
use mathlib.Core.Logic.{◌⊎◌, inl, inr}
use mathlib.Core.Path.{◌≡◌, refl}

pub data ConflictCode : Type 0 where
  privacy_not_accepted already_exists invalid_transition capacity_full slot_taken token_replayed :
      ConflictCode

pub data HttpError : Type 0 where
  bad_request unauthorized forbidden not_found internal : HttpError
  conflict : ConflictCode → HttpError

pub data Result {ℓ} (A : Type ℓ) : Type ℓ where
  ok : A → Result A
  err : HttpError → Result A

-- `if (!b) throw e`
abbrev pub assert : Bool → HttpError → Result (Unit {0})
assert true e = ok tt
assert false e = err e

pub Result-cases {ℓ} :
    {A : Type ℓ} (r : Result A) → ((e : HttpError) × (r ≡ err e)) ⊎ ((a : A) × (r ≡ ok a))
Result-cases (err e) = inl (e, refl)
Result-cases (ok a) = inr (a, refl)
