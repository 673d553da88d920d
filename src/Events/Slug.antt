-- ===== src/Events/Slug.antt =====
-- src/showcase/slug.util.ts, and the search for a free slug in src/events/events-admin.service.ts,
-- over code points.
pub mod Laws
pub mod Shape
use rac3011_api.Base.{
  ℕ, zero, suc, ◌+◌, Bool, true, false, not, ◌&&◌, ◌||◌, Option, none, some, List, [], ◌∷◌, ◌++◌,
  leb, eqb, any, if◌then◌else◌, codes, decimal, is_empty, text_eq,
}

-- `toLowerCase` of one character. Outside ASCII only the two letters whose lower case holds an ASCII
-- letter are changed here: `slugify` treats all other characters alike.
unfoldable pub lower : ℕ → List ℕ
lower c =
    if leb 65 c && leb c 90
    then (c + 32) ∷ []
    else if eqb c 8490
    then 107 ∷ []
    else if eqb c 304
    then 105 ∷ 775 ∷ []
    else c ∷ []

unfoldable pub to_lower_case : List ℕ → List ℕ
unfolding lower
to_lower_case [] = []
to_lower_case (c ∷ cs) = lower c ++ to_lower_case cs

-- The characters that `trim` removes.
abbrev pub is_space : ℕ → Bool
is_space c =
    (leb 9 c && leb c 13)
    || (eqb c 32 || eqb c 160 || eqb c 5760 || (leb 8192 c && leb c 8202))
    || (eqb c 8232 || eqb c 8233 || eqb c 8239 || eqb c 8287 || eqb c 12288 || eqb c 65279)

abbrev pub drop_while : (ℕ → Bool) → List ℕ → List ℕ
drop_while p [] = []
drop_while p (c ∷ cs) = if p c then drop_while p cs else c ∷ cs

abbrev pub drop_last_while : (ℕ → Bool) → List ℕ → List ℕ
drop_last_while p [] = []
drop_last_while p (c ∷ cs) =
    let rest = drop_last_while p cs in if p c && is_empty rest then [] else c ∷ rest

abbrev pub trim : (ℕ → Bool) → List ℕ → List ℕ
trim p s = drop_last_while p (drop_while p s)

-- `[a-z0-9]`
abbrev pub is_word : ℕ → Bool
is_word c = (leb 97 c && leb c 122) || (leb 48 c && leb c 57)

-- `.replace(/[^a-z0-9]+/g, '-')`; the flag says that the last character was in a run.
abbrev pub dash_runs : Bool → List ℕ → List ℕ
dash_runs run [] = []
dash_runs run (c ∷ cs) =
    let outside = dash_runs false cs in
    let inside = dash_runs true cs in
    if is_word c then c ∷ outside else if run then inside else 45 ∷ inside

-- `.slice(0, n)`
abbrev pub take : ℕ → List ℕ → List ℕ
take zero cs = []
take (suc n) [] = []
take (suc n) (c ∷ cs) = c ∷ take n cs

abbrev pub is_dash : ℕ → Bool
is_dash c = eqb c 45

-- `base || 'project'`
abbrev pub or_project : List ℕ → List ℕ
or_project [] = codes "project"
or_project (c ∷ cs) = c ∷ cs

unfoldable pub slugify : List ℕ → List ℕ
unfolding to_lower_case
slugify title =
    or_project (take 80 (trim is_dash (dash_runs false (trim is_space (to_lower_case title)))))

-- `row && row.slug === candidate`, where `row` is the row to leave out, if there is one.
abbrev pub is_own : Option (List ℕ) → List ℕ → Bool
is_own none candidate = false
is_own (some slug) candidate = text_eq slug candidate

-- `${base}-${n}`
abbrev pub numbered : List ℕ → ℕ → List ℕ
numbered base n = base ++ 45 ∷ decimal n

-- The loop of `uniqueSlug` over the slugs in the table; `none` is a loop out of fuel.
unfoldable pub free_slug :
    ℕ → List (List ℕ) → Option (List ℕ) → List ℕ → List ℕ → ℕ → Option (List ℕ)
free_slug zero slugs own base candidate n = none
free_slug (suc fuel) slugs own base candidate n =
    let rest = free_slug fuel slugs own base (numbered base n) (n + 1) in
    if not (any (text_eq candidate) slugs)
    then some candidate
    else if is_own own candidate
    then some candidate
    else rest
