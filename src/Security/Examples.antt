-- ===== src/Security/Examples.antt =====
-- The permission on concrete inputs (internal/security/security.go).
use elbot.Base.{
  ◌≤◌, ◌≡◌, ◌≢◌, ◌⊎◌, ◌↔◌, refl, String, true, false, List, [], ◌∷◌, codes, to_lower, trim_space,
}
use elbot.Security.{
  Permission, Actor, superadmin, user, unknown, low, medium, high, critical, check_tool, risk_rank,
  parse_risk,
}
use elbot.Security.Policy.{check_tool-allowed}

abbrev policy : Permission
policy = record { user_max_tool_risk = low; superadmin_confirm_risk = high; superadmins = [] }

abbrev visitor : Actor
visitor = record {
  platform = "cli";
  id = "u";
  nickname = "";
  group_card = "";
  name = "U";
  role = user;
  group_role = unknown;
}

check_tool-allowed_example :
    ((check_tool policy visitor "shell" medium false false false).allowed ≡ true) ↔ (
      (false ≡ true → visitor.role ≡ superadmin)
      × ((visitor.role ≡ superadmin)
          ⊎ ((false ≡ true) ⊎ (risk_rank medium ≤ risk_rank policy.user_max_tool_risk)))
      × (◌≡◌ {A = String} "shell" "shell" → false ≡ true → medium ≢ critical))
check_tool-allowed_example = check_tool-allowed policy visitor "shell" medium false false false

abbrev config : List (String × List String)
config = ("cli", "local" ∷ []) ∷ (("qq", "1" ∷ ("2" ∷ [])) ∷ [])

high_parses : parse_risk (codes " High ") low ≡ high
unfolding parse_risk to_lower trim_space
high_parses = refl
