-- ===== src/Security.antt =====
-- Roles, tool risks and confirmations (internal/security/security.go).
pub mod Policy
mod Examples
use elbot.Base.{
  ℕ, ◌≤◌, String, Text, Bool, true, false, not, ◌&&◌, ◌||◌, Option, none, some, List, [], ◌∷◌,
  if◌then◌else◌, leb, str_eq, text_eq, codes, trim_space, to_lower, lookup, insert,
}

pub data RiskLevel : Type 0 where
  safe low medium high critical : RiskLevel
  other : Text → RiskLevel

pub data Role : Type 0 where
  user superadmin : Role
  other_role : String → Role

pub data GroupRole : Type 0 where
  unknown owner admin member : GroupRole
  other_group_role : String → GroupRole

-- contextinfo.Actor, with the embedded identity's fields in place.
pub record Actor : Type 0 where
  pub platform : String
  pub id : String
  pub nickname : String
  pub group_card : String
  pub name : String
  pub role : Role
  pub group_role : GroupRole

pub record Permission : Type 0 where
  pub user_max_tool_risk : RiskLevel
  pub superadmin_confirm_risk : RiskLevel
  pub superadmins : List (String × List String)

pub data Reason : Type 0 where
  requires_superadmin risk_above_allowed_level shell_rejected shell_auto_confirmed no_reason :
      Reason

pub record ToolPermissionResult : Type 0 where
  pub allowed : Bool
  pub needs_confirmation : Bool
  pub reason : Reason

unfoldable pub normalize : Text → Text
normalize value = to_lower (trim_space value)

unfoldable pub parse_risk : Text → RiskLevel → RiskLevel
unfolding normalize
parse_risk value fallback =
    let v = normalize value in
    if text_eq v (codes "safe")
    then safe
    else if text_eq v (codes "low")
    then low
    else if text_eq v (codes "medium")
    then medium
    else if text_eq v (codes "high")
    then high
    else if text_eq v (codes "critical")
    then critical
    else fallback

-- An unknown level ranks as `high`.
unfoldable pub risk_rank : RiskLevel → ℕ
risk_rank safe = 0
risk_rank low = 1
risk_rank medium = 2
risk_rank high = 3
risk_rank critical = 4
risk_rank (other t) = 3

-- `CompareRisk(left, right) <= 0`: the difference of the ranks is an int, so no rank wraps.
unfoldable pub risk_le : RiskLevel → RiskLevel → Bool
unfolding risk_rank
risk_le left right = leb (risk_rank left) (risk_rank right)

abbrev pub is_superadmin_role : Role → Bool
is_superadmin_role superadmin = true
is_superadmin_role _ = false

unfoldable pub can_use_tool : Permission → Actor → RiskLevel → Bool → Bool
can_use_tool p actor risk owner_scoped =
    if is_superadmin_role actor.role
    then true
    else if owner_scoped
    then true
    else risk_le risk p.user_max_tool_risk

unfoldable pub needs_tool_confirmation : Permission → Actor → RiskLevel → Bool
needs_tool_confirmation p actor risk =
    risk_le (if is_superadmin_role actor.role then p.superadmin_confirm_risk else high) risk

abbrev pub is_critical : RiskLevel → Bool
is_critical critical = true
is_critical _ = false

abbrev pub refused : Reason → ToolPermissionResult
refused r = record { allowed = false; needs_confirmation = false; reason = r }

unfoldable pub check_tool :
    Permission → Actor → String → RiskLevel → Bool → Bool → Bool → ToolPermissionResult
unfolding can_use_tool needs_tool_confirmation
check_tool p actor name risk owner_scoped superadmin_only auto_confirm_shell =
    if superadmin_only && not (is_superadmin_role actor.role)
    then refused requires_superadmin
    else if not (can_use_tool p actor risk owner_scoped)
    then refused risk_above_allowed_level
    else if str_eq name "shell" && auto_confirm_shell
    then (if is_critical risk
        then refused shell_rejected
        else record { allowed = true; needs_confirmation = false; reason = shell_auto_confirmed })
    else record {
      allowed = true;
      needs_confirmation = needs_tool_confirmation p actor risk;
      reason = no_reason;
    }

unfoldable pub mem_string : String → List String → Bool
mem_string s [] = false
mem_string s (t ∷ rest) = str_eq t s || mem_string s rest

-- The range over the configured platforms: each gets a fresh set of its user IDs. A Go map has
-- distinct keys, so a later entry never meets an earlier one of its platform.
unfoldable pub fill_superadmins :
    List (String × List String) → List (String × List String) → List (String × List String)
fill_superadmins acc [] = acc
fill_superadmins acc ((platform, ids) ∷ rest) = fill_superadmins (insert platform ids acc) rest

unfoldable pub new_permission : Text → Text → List (String × List String) → Permission
unfolding parse_risk fill_superadmins
new_permission user_max confirm superadmins = record {
  user_max_tool_risk = parse_risk user_max low;
  superadmin_confirm_risk = parse_risk confirm high;
  superadmins = fill_superadmins [] superadmins;
}

unfoldable pub is_superadmin : Permission → String → String → Bool
unfolding mem_string
is_superadmin p platform user_id = elim (lookup platform p.superadmins) [
  | none ↦ false
  | some ids ↦ mem_string user_id ids
]

unfoldable pub resolve_actor : Permission → String → String → String → Actor
unfolding is_superadmin
resolve_actor p platform user_id display = record {
  platform = platform;
  id = user_id;
  nickname = "";
  group_card = "";
  name = display;
  role = if is_superadmin p platform user_id then superadmin else user;
  group_role = unknown;
}
