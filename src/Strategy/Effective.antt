-- ===== src/Strategy/Effective.antt =====
-- src/regime_detection/strategy_constraints.py: the permission of every strategy family and mode, from
-- the strategy response, the family constraints and the agent routing.
mod Families
mod Restrictive
mod Tests
use regime_detection.Prelude.Dict.{Dict, lookup}
use regime_detection.Prelude.Int.{int_eq}
use Prim.Native.String.{compare as compare_text, ◌++◌ as append_text}
use text.Mathlib.Text.{is_lt}
use regime_detection.Prelude.{
  String, Bool, true, false, ◌&&◌, Option, none, some, List, [], ◌∷◌, ◌++◌, if◌then◌else◌, ◌==◌,
  nat_eq, string_eq, bool_eq, contains,
}
use regime_detection.CohortRouting.{AgentRouting}
use regime_detection.Strategy.{
  StrategyResponse, FamilyLimits, StrategyFamilyConstraint, EffectiveStrategyConstraint,
  strategy_families,
}
use regime_detection.Strategy.Family.{no_limits}

-- `sorted(set(names))`
insert_name : String → List String → List String
insert_name n [] = n ∷ []
insert_name n (m ∷ ms) =
    let further = m ∷ insert_name n ms in
    if n == m then m ∷ ms else if is_lt (compare_text n m) then n ∷ m ∷ ms else further

unfoldable pub sorted_names : List String → List String
unfolding insert_name
sorted_names [] = []
sorted_names (n ∷ ns) = insert_name n (sorted_names ns)

-- `for name in names: if name not in families: families.append(name)`
unfoldable pub append_missing : List String → List String → List String
append_missing families [] = families
append_missing families (n ∷ ns) =
    append_missing (if contains families n then families else families ++ (n ∷ [])) ns

-- `reason or default`: an empty text counts as none.
abbrev pub text_or : Option String → String → String
text_or none default = default
text_or (some t) default = if t == "" then default else t

-- The families that the strategy response allows or not, in the table's order.
abbrev pub response_families : List String
response_families = "trend_following" ∷ "mean_reversion" ∷ "breakout" ∷ "buy_dip" ∷ "shorts" ∷ []

abbrev pub blocked_modes : Option AgentRouting → List String
blocked_modes none = []
blocked_modes (some r) = r.blocked_strategy_modes

-- One source's say: the reasons that it adds to the blocking ones.
response_reasons : Option String → Option (String × Bool) → List String
response_reasons why none = []
response_reasons why (some (field, true)) = []
response_reasons why (some (field, false)) =
    append_text "strategy_response:" (text_or why field) ∷ []

routing_reasons : Option AgentRouting → Bool → List String
routing_reasons (some r) true = append_text "agent_routing:" r.active_cohort ∷ []
routing_reasons _ _ = []

routing_sources : Option AgentRouting → Bool → List String
routing_sources (some r) true = "agent_routing" ∷ []
routing_sources _ _ = []

response_allows : Option (String × Bool) → Bool
response_allows none = true
response_allows (some (field, allowed)) = allowed

routing_allows : Option AgentRouting → Bool → Bool
routing_allows (some r) true = false
routing_allows _ _ = true

-- The families of the result: the constrained ones, those of the response, the blocked modes.
unfoldable pub all_families : Option AgentRouting → List String
unfolding append_missing sorted_names
all_families routing =
    append_missing (append_missing strategy_families response_families)
      (sorted_names (blocked_modes routing))

module _ {ℓ} {F : Type ℓ} where
  -- `_STRATEGY_RESPONSE_ALLOW_FIELD`, with the value of each field.
  abbrev pub allow_fields : StrategyResponse F → Dict String (String × Bool)
  allow_fields r =
      ("trend_following", ("allow_trend_following", r.allow_trend_following))
      ∷ ("mean_reversion", ("allow_mean_reversion", r.allow_mean_reversion))
      ∷ ("breakout", ("allow_breakout", r.allow_breakout))
      ∷ ("buy_dip", ("allow_buy_dip", r.allow_buy_dip))
      ∷ ("shorts", ("allow_shorts", r.allow_shorts))
      ∷ []

  constraint_reasons : Option (StrategyFamilyConstraint F) → List String
  constraint_reasons none = []
  constraint_reasons (some c) =
      if c.allowed
      then []
      else append_text "strategy_family_constraints:" (text_or c.reason "blocked") ∷ []

  constraint_sources : Option (StrategyFamilyConstraint F) → List String
  constraint_sources none = []
  constraint_sources (some c) = "strategy_family_constraints" ∷ []

  -- `allowed` after the three tests of the function, each of which may clear it.
  constraint_allows : Option (StrategyFamilyConstraint F) → Bool
  constraint_allows none = true
  constraint_allows (some c) = c.allowed

  abbrev limits_of : Option (StrategyFamilyConstraint F) → FamilyLimits F
  limits_of none = no_limits
  limits_of (some c) = c.limits

  unfoldable pub resolve_one :
      String
      → StrategyResponse F
      → Option AgentRouting
      → Option (StrategyFamilyConstraint F)
      → Bool
      → EffectiveStrategyConstraint F
  unfolding response_reasons constraint_reasons constraint_sources routing_reasons routing_sources
      response_allows constraint_allows routing_allows
  resolve_one family r routing constraint is_agent_blocked =
      let field = lookup (allow_fields r) family in
      record {
        family = family;
        allowed =
            response_allows field
            && constraint_allows constraint
            && routing_allows routing is_agent_blocked;
        sources =
            "strategy_response"
            ∷ (constraint_sources constraint ++ routing_sources routing is_agent_blocked);
        blocking_reasons =
            response_reasons r.reason field
            ++ (constraint_reasons constraint ++ routing_reasons routing is_agent_blocked);
        position_size_multiplier = r.position_size_multiplier;
        leverage_allowed = r.leverage_allowed;
        require_confirmation_for_new_longs = r.require_confirmation_for_new_longs;
        require_confirmation_for_shorts = r.require_confirmation_for_shorts;
        limits = limits_of constraint;
      }

  abbrev pub constraint_for :
      Option (Dict String (StrategyFamilyConstraint F))
      → String
      → Option (StrategyFamilyConstraint F)
  constraint_for none family = none
  constraint_for (some d) family = lookup d family

  -- The dictionary comprehension over the families.
  unfoldable pub resolve_each :
      StrategyResponse F
      → Option AgentRouting
      → Option (Dict String (StrategyFamilyConstraint F))
      → List String
      → Dict String (EffectiveStrategyConstraint F)
  unfolding resolve_one
  resolve_each r routing constraints [] = []
  resolve_each r routing constraints (family ∷ rest) =
      (
        family,
        resolve_one family r routing (constraint_for constraints family)
            (contains (blocked_modes routing) family),
      )
      ∷ resolve_each r routing constraints rest

  unfoldable pub resolve_effective_strategy_constraints :
      StrategyResponse F
      → Option AgentRouting
      → Option (Dict String (StrategyFamilyConstraint F))
      → Dict String (EffectiveStrategyConstraint F)
  unfolding resolve_each all_families
  resolve_effective_strategy_constraints r routing constraints =
      resolve_each r routing constraints (all_families routing)
