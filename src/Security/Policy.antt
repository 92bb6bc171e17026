-- ===== src/Security/Policy.antt =====
-- What the permission promises (internal/security/security.go).
use elbot.Base.{
  ◌≤◌, ◌≡◌, ◌↔◌, ◌⊎◌, ◌≢◌, refl, String, Text, Bool, true, false, none, some, List, [], ◌∷◌, arith,
  eq_iff, lookup, insert, lookup-insert, Distinct, codes, text_eq_iff,
}
use elbot.Security.{
  Permission, Actor, RiskLevel, superadmin, safe, low, medium, high, critical, other, check_tool,
  risk_rank, risk_le, parse_risk, normalize, new_permission, is_superadmin, fill_superadmins,
  mem_string,
}

-- A tool is allowed exactly when no rule forbids it: a superadmin tool needs a superadmin, a
-- regular user stays within the allowed risk unless the tool is scoped to its owner, and the
-- auto-confirmed shell is refused at the critical level.
pub check_tool-allowed :
    (p : Permission) (actor : Actor) (name : String) (risk : RiskLevel) (owner only auto : Bool)
    → ((check_tool p actor name risk owner only auto).allowed ≡ true) ↔ (
        (only ≡ true → actor.role ≡ superadmin)
        × ((actor.role ≡ superadmin)
            ⊎ ((owner ≡ true) ⊎ (risk_rank risk ≤ risk_rank p.user_max_tool_risk)))
        × (name ≡ "shell" → auto ≡ true → risk ≢ critical))
unfolding check_tool risk_le
check_tool-allowed p actor name risk owner only auto = ground (arith, eq_iff name "shell")

-- Lowering the risk of a tool never takes a permission away, and never adds a confirmation. The
-- shell that is confirmed without asking is refused only at the critical level.
pub check_tool-antitone :
    (p : Permission) (actor : Actor) (name : String) (r s : RiskLevel) (owner only auto : Bool)
    → risk_rank r ≤ risk_rank s
    → (check_tool p actor name s owner only auto).allowed ≡ true
    → ((check_tool p actor name r owner only auto).allowed ≡ true)
      × ((check_tool p actor name r owner only auto).needs_confirmation ≡ true
          → (check_tool p actor name s owner only auto).needs_confirmation ≡ true)
unfolding check_tool risk_le risk_rank
check_tool-antitone p actor name r s owner only auto h a = ground arith

fill-lookup :
    (acc l : List (String × List String)) (k : String)
    → Distinct l
    → lookup k (fill_superadmins acc l)
      ≡ elim (lookup k l) [ none ↦ lookup k acc | some ids ↦ some ids ]
unfolding fill_superadmins lookup
fill-lookup acc [] k d = refl
fill-lookup acc ((j, ids) ∷ l) k d =
    ground (arith, fill-lookup (insert j ids acc) l k d.1, lookup-insert j k ids acc, eq_iff j k)

-- A user of a platform is a superadmin exactly when the configuration lists the user's ID under
-- that platform; an unlisted platform has none.
pub new_permission-superadmin :
    (a b : Text) (config : List (String × List String)) (platform user_id : String)
    → Distinct config
    → is_superadmin (new_permission a b config) platform user_id
      ≡ elim (lookup platform config) [ none ↦ false | some ids ↦ mem_string user_id ids ]
unfolding is_superadmin new_permission lookup
new_permission-superadmin a b config platform user_id d =
    ground (arith, fill-lookup [] config platform d)

abbrev pub name_of : RiskLevel → Text
name_of safe = codes "safe"
name_of low = codes "low"
name_of medium = codes "medium"
name_of high = codes "high"
name_of critical = codes "critical"
name_of (other t) = t

-- A text that is a level's name, but for case and surrounding space, parses to that level; any
-- other text gives the fallback.
pub parse_risk-name :
    (value : Text) (fallback : RiskLevel)
    → (normalize value ≡ name_of safe → parse_risk value fallback ≡ safe)
      × (normalize value ≡ name_of low → parse_risk value fallback ≡ low)
      × (normalize value ≡ name_of medium → parse_risk value fallback ≡ medium)
      × (normalize value ≡ name_of high → parse_risk value fallback ≡ high)
      × (normalize value ≡ name_of critical → parse_risk value fallback ≡ critical)
      × (normalize value ≢ name_of safe
          → normalize value ≢ name_of low
          → normalize value ≢ name_of medium
          → normalize value ≢ name_of high
          → normalize value ≢ name_of critical
          → parse_risk value fallback ≡ fallback)
unfolding parse_risk
parse_risk-name value fallback =
    let v = normalize value in
    (
      λ e. rw (e, parse_risk),
      λ e. rw (e, parse_risk),
      λ e. rw (e, parse_risk),
      λ e. rw (e, parse_risk),
      λ e. rw (e, parse_risk),
      λ a b c d e. ground (
        arith,
        text_eq_iff v (codes "safe"),
        text_eq_iff v (codes "low"),
        text_eq_iff v (codes "medium"),
        text_eq_iff v (codes "high"),
        text_eq_iff v (codes "critical"),
      ),
    )
