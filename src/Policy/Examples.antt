-- ===== src/Policy/Examples.antt =====
-- A review of feedback by a principal that may make it, and by one whose products do not have it.
use scenara.Prelude.{true, string_eq, refl, none, [], ◌∷◌, ◌≡◌, ◌↔◌}
use scenara.Prelude.Dict.{lookup}
use scenara.Policy.{
  PrincipalContext, PolicyDecision, granted, denied, resource_products, require_allowed,
  development_policy,
}
use scenara.Policy.Decisions.{HasScope, HasProduct, require_allowed_iff}

abbrev reader : PrincipalContext
reader = record {
  tenant_id = "acme";
  project_id = "demo";
  principal_id = "ann";
  scopes = "feedback:*" ∷ [];
  product_ids = "data" ∷ [];
  request_id = none;
  traceparent = none;
}

abbrev decision : PolicyDecision
decision = development_policy reader "review" "feedback" none

require_allowed_iff_example :
    (require_allowed development_policy reader "review" "feedback" none ≡ granted decision) ↔ (
      HasScope "review" "feedback" reader.scopes
      × HasProduct (lookup "feedback" resource_products) reader.product_ids
      × (development_policy reader "review" "feedback" none ≡ decision)
      × (decision.allowed ≡ true))
require_allowed_iff_example =
    require_allowed_iff development_policy reader "review" "feedback" none decision

-- The request is granted.
reads : require_allowed development_policy reader "review" "feedback" none ≡ granted decision
unfolding require_allowed lookup development_policy
reads = refl

-- A principal whose products do not have feedback is denied.
denies :
    require_allowed development_policy
      (record reader { product_ids = "parse" ∷ [] })
      "review"
      "feedback"
      none
    ≡ denied "product denied: data"
unfolding require_allowed lookup development_policy
denies = refl
