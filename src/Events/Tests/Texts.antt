-- ===== src/Events/Tests/Texts.antt =====
-- Runs of the slugs and the tokens of events, and instances of the theorems about them.
use rac3011_api.Base.{
  ℕ, ◌≤◌, ◌≡◌, refl, true, false, none, some, List, [], ◌∷◌, any, arith, codes, decimal,
  decimal_from, split_dots,
}
use rac3011_api.Events.Slug.{lower, to_lower_case, slugify, free_slug}
use rac3011_api.Events.Slug.Laws.{candidate, ends, earlier, free_slug-ends}
use rac3011_api.Events.Token.{check_payload, sign_checkin_token, verify_parts, verify_checkin_token}
use rac3011_api.Events.Token.RoundTrip.{IsEncoding, signed_payload, verify-sign_checkin_token}
use rac3011_api.Events.Tests.{crypto}

run : Unit {0}
unfolding decimal decimal_from lower to_lower_case slugify free_slug split_dots check_payload
    sign_checkin_token verify_parts verify_checkin_token
run = tt

slugs : slugify (codes "  Rotaract Day, 2026! ") ≡ codes "rotaract-day-2026"
unfolding run
slugs = refl

abbrev taken : List (List ℕ)
taken = codes "day" ∷ codes "night" ∷ codes "day-2" ∷ []

numbered_slug : free_slug 4 taken none (codes "day") (codes "day") 2 ≡ some (codes "day-3")
unfolding run
numbered_slug = refl

free_slug-ends_example :
    (j : ℕ) × (j ≤ 3)
    × (free_slug 4 taken none (codes "day") (codes "day") 2 ≡ some (candidate (codes "day") j))
    × (ends taken none (candidate (codes "day") j) ≡ true)
    × (any (ends taken none) (earlier taken none (codes "day") j) ≡ false)
free_slug-ends_example = free_slug-ends taken none (codes "day") 4 (omega arith)

encodes : IsEncoding crypto (signed_payload 100 "j1" "e1" "m1" 50)
encodes = record {
  header_no_dot = refl;
  encode_no_dot = refl;
  digest_no_dot = λ s. refl;
  decode_encode = refl;
}

tokens :
    (verify_checkin_token crypto 150 (codes "h.body.s")
      ≡ some (signed_payload 100 "j1" "e1" "m1" 50))
    × (verify_checkin_token crypto 151 (codes "h.body.s") ≡ none)
    × (verify_checkin_token crypto 150 (codes "h.body.x") ≡ none)
    × (verify_checkin_token crypto 150 (codes "h.body") ≡ none)
unfolding run
tokens = (refl, refl, refl, refl)

verify-sign_checkin_token_example :
    verify_checkin_token crypto 150 (sign_checkin_token crypto 100 "j1" "e1" "m1" 50)
    ≡ some (signed_payload 100 "j1" "e1" "m1" 50)
verify-sign_checkin_token_example =
    verify-sign_checkin_token crypto 100 150 "j1" "e1" "m1" 50 encodes (omega arith) refl refl refl
