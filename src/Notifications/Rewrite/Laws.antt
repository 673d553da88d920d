-- ===== src/Notifications/Rewrite/Laws.antt =====
-- Before the service goes live, mail reaches nobody but those on the list.
use rac3011_api.Base.{
  String, true, false, List, [], ◌∷◌, ◌≡◌, refl, map, all, truthy, includes, arith, eq_iff, inl,
  inr, Bool-cases,
}
use rac3011_api.Notifications.Rewrite.{
  RewriteInput, RewriteResult, send, refuse, norm, normal_list, redirect, rewrite_recipient,
}

-- The address is one of the list's, up to blanks around it and letter case.
abbrev pub IsAllowed : (trim lower : String → String) → List String → String → Type 0
IsAllowed trim lower allowlist to =
    includes (norm trim lower to) (map (norm trim lower) allowlist) ≡ true

-- What comes out is a refusal, of an empty list, or a mail to an allowed address.
abbrev pub StaysOnList : (trim lower : String → String) → List String → RewriteResult → Type 0
StaysOnList trim lower allowlist (send to subject) = IsAllowed trim lower allowlist to
StaysOnList trim lower allowlist refuse = allowlist ≡ []

module _ (trim lower : String → String) where
  normal_list-all :
      (l : List String)
      → all (λ a. truthy (norm trim lower a)) l ≡ true
      → normal_list trim lower l ≡ map (norm trim lower) l
  normal_list-all [] h = refl
  normal_list-all (a ∷ l) h = ground (arith, normal_list-all l)

  rewrite_recipient-real :
      (input : RewriteInput)
      → input.may_send_to_real_recipients ≡ true
      → rewrite_recipient trim lower input ≡ send input.to input.subject
  unfolding rewrite_recipient
  rewrite_recipient-real input h = ground arith

  redirect_stays :
      (input : RewriteInput) (l : List String)
      → ((s : String) → trim (trim s) ≡ trim s)
      → input.allowlist ≡ l
      → StaysOnList trim lower l (redirect trim lower input (map (norm trim lower) l))
  redirect_stays input [] trims e = refl
  redirect_stays input (a ∷ l) trims e =
      let normal = map (norm trim lower) (a ∷ l) in
      elim (Bool-cases (includes (norm trim lower input.to) normal)) [
        | inl listed ↦ rw listed listed
        | inr absent ↦ rw absent (ground (arith, trims a, eq_iff (lower (trim a)) (lower (trim a))))
      ]

  -- Unless mail is live, and if every address of the list is more than blanks (`config/env.ts` drops
  -- the others) and a second `trim` changes nothing: a mail goes out only to an address of the list,
  -- up to blanks around it and letter case, and none is refused unless the list is empty.
  pub rewrite_recipient-StaysOnList :
      (input : RewriteInput)
      → ((s : String) → trim (trim s) ≡ trim s)
      → all (λ a. truthy (norm trim lower a)) input.allowlist ≡ true
      → input.may_send_to_real_recipients ≡ false
      → StaysOnList trim lower input.allowlist (rewrite_recipient trim lower input)
  unfolding rewrite_recipient
  rewrite_recipient-StaysOnList input trims full off =
      simp off (
        rw (normal_list-all input.allowlist full) (redirect_stays input input.allowlist trims refl))
