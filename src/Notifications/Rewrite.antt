-- ===== src/Notifications/Rewrite.antt =====
-- src/notifications/email/recipient-rewrite.ts: where a mail may go when the service is not live.
-- `trim` and `lower` are `trim` and `toLowerCase` of JavaScript's texts.
pub mod Laws
use Prim.Native.String.{◌++◌}
use rac3011_api.Base.{String, Bool, List, [], ◌∷◌, map, keep, if◌then◌else◌, truthy, includes}

pub record RewriteInput : Type 0 where
  pub to : String
  pub subject : String
  pub may_send_to_real_recipients : Bool
  pub allowlist : List String

pub data RewriteResult : Type 0 where
  send : String → String → RewriteResult
  refuse : RewriteResult

-- `list[0]`, read only of a list that has a first element.
abbrev pub first : List String → String
first [] = ""
first (x ∷ xs) = x

module _ (trim : String → String) (lower : String → String) where
  abbrev pub norm : String → String
  norm v = lower (trim v)

  -- `input.allowlist.map(norm).filter(Boolean)`
  abbrev pub normal_list : List String → List String
  normal_list allowlist = keep truthy (map norm allowlist)

  -- From the second test on.
  abbrev pub redirect : RewriteInput → List String → RewriteResult
  redirect input [] = refuse
  redirect input (a ∷ allowlist) =
      if includes (norm input.to) (a ∷ allowlist)
      then send input.to input.subject
      else send (trim (first input.allowlist)) ("[" ++ input.to ++ "] " ++ input.subject)

  unfoldable pub rewrite_recipient : RewriteInput → RewriteResult
  rewrite_recipient input =
      if input.may_send_to_real_recipients
      then send input.to input.subject
      else redirect input (normal_list input.allowlist)
