-- ===== src/Policy.antt =====
-- Authorisation: scenara/platform/policy.py, with `PrincipalContext` of scenara/platform/models.py.
-- The provider's `authorize` is a function here, a parameter of `require_allowed`. A frozenset is a
-- list, of which only membership is asked.
pub mod Decisions
pub mod Examples
use scenara.Prelude.{
  String, ℕ, Bool, true, false, not, ◌&&◌, ◌||◌, Option, none, some, List, [], ◌∷◌, any, ◌≡◌, ◌⊎◌,
  inl, inr, refl, ◌==◌, contains, string_eq, if◌then◌else◌,
}
use Prim.Native.String.{◌++◌}
use scenara.Prelude.Dict.{Dict, lookup}
use scenara.Models.{JsonObject}

pub record PrincipalContext : Type 0 where
  pub tenant_id : String
  pub project_id : String
  pub principal_id : String
  pub scopes : List String
  pub product_ids : List String
  pub request_id : Option String
  pub traceparent : Option String

pub record PolicyDecision : Type 0 where
  pub allowed : Bool
  pub reason : String
  pub entitlements : List String
  pub limits : Option (Dict String ℕ)

-- The decision that is returned, or the reason of `PolicyDenied`.
pub data Verdict : Type 0 where
  granted : PolicyDecision → Verdict
  denied : String → Verdict

pub Verdict-cases :
    (v : Verdict) → ((d : PolicyDecision) × (v ≡ granted d)) ⊎ ((m : String) × (v ≡ denied m))
Verdict-cases (granted d) = inl (d, refl)
Verdict-cases (denied m) = inr (m, refl)

abbrev pub PolicyProvider : Type 0
PolicyProvider = PrincipalContext → String → String → Option JsonObject → PolicyDecision

abbrev pub resource_products : Dict String String
resource_products =
    ("audit_event", "console")
    ∷ ("dataset", "data")
    ∷ ("dataset_version", "data")
    ∷ ("enterprise_compliance", "console")
    ∷ ("enterprise_incident", "console")
    ∷ ("enterprise_sla", "console")
    ∷ ("enterprise_support", "console")
    ∷ ("feedback", "data")
    ∷ ("hard-sample-manifest", "data")
    ∷ ("iam", "console")
    ∷ ("media_asset", "parse")
    ∷ ("media_source", "parse")
    ∷ ("model_package", "model")
    ∷ ("model-deployment-event", "model")
    ∷ ("model-release", "model")
    ∷ ("operations", "console")
    ∷ ("pipeline", "parse")
    ∷ ("portrait_camera", "parse")
    ∷ ("portrait_feature", "parse")
    ∷ ("portrait_identity", "parse")
    ∷ ("portrait_trajectory", "parse")
    ∷ ("search_index", "parse")
    ∷ ("saved_search", "search")
    ∷ ("surveillance_watchlist", "parse")
    ∷ ("surveillance_task", "parse")
    ∷ ("surveillance_alert", "parse")
    ∷ ("run", "parse")
    ∷ ("webhook_delivery", "api")
    ∷ ("webhook_subscription", "api")
    ∷ []

-- The scopes of which one is required.
abbrev pub required_scopes : String → String → List String
required_scopes action resource = "*" ∷ (resource ++ ":*") ∷ (resource ++ (":" ++ action)) ∷ []

-- `product_id is not None and "*" not in context.product_ids and product_id not in ...`
abbrev pub lacks_product : Option String → List String → Bool
lacks_product none product_ids = false
lacks_product (some product_id) product_ids =
    not (contains "*" product_ids) && not (contains product_id product_ids)

abbrev pub or_empty : Option String → String
or_empty none = ""
or_empty (some t) = t

unfoldable pub require_allowed :
    PolicyProvider → PrincipalContext → String → String → Option JsonObject → Verdict
require_allowed provider context action resource attributes =
    let product_id = lookup resource resource_products in
    let decision = provider context action resource attributes in
    if not (any (λ scope. contains scope context.scopes) (required_scopes action resource))
    then denied ("scope denied: " ++ (resource ++ (":" ++ action)))
    else if lacks_product product_id context.product_ids
    then denied ("product denied: " ++ or_empty product_id)
    else if not decision.allowed
    then denied decision.reason
    else granted decision

-- `DevelopmentPolicyProvider.authorize`
unfoldable pub development_policy : PolicyProvider
development_policy context action resource attributes = record {
  allowed = true;
  reason = "development policy";
  entitlements = [];
  limits = none;
}
