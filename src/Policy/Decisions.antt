-- ===== src/Policy/Decisions.antt =====
-- `require_allowed` of scenara/platform/policy.py.
use scenara.Prelude.{
  String, true, false, Option, none, some, List, any, contains, string_eq, Bool-cases, ◌↔◌, ◌⊎◌,
  ◌≡◌, inl, inr, refl, arith,
}
use Prim.Native.String.{◌++◌}
use scenara.Prelude.Dict.{lookup}
use scenara.Models.{JsonObject}
use scenara.Policy.{
  PrincipalContext, PolicyDecision, PolicyProvider, granted, resource_products, required_scopes,
  lacks_product, require_allowed,
}

-- The scopes hold all scopes, those of the resource, or the one of the action on the resource.
abbrev pub HasScope : String → String → List String → Type 0
HasScope action resource scopes =
    (contains "*" scopes ≡ true)
    ⊎ ((contains (resource ++ ":*") scopes ≡ true)
        ⊎ (contains (resource ++ (":" ++ action)) scopes ≡ true))

-- The products hold the one that a resource belongs to, if it belongs to any, or all of them.
abbrev pub HasProduct : Option String → List String → Type 0
HasProduct none products = Unit
HasProduct (some product) products =
    (contains "*" products ≡ true) ⊎ (contains product products ≡ true)

any-HasScope :
    (action resource : String) (scopes : List String)
    → (any (λ scope. contains scope scopes) (required_scopes action resource) ≡ true)
      ↔ HasScope action resource scopes
any-HasScope action resource scopes = ground arith

lacks_product-HasProduct :
    (product : Option String) (products : List String)
    → (lacks_product product products ≡ false) ↔ HasProduct product products
lacks_product-HasProduct none products = (λ h. tt, λ h. refl)
lacks_product-HasProduct (some product) products = ground arith

-- An action is granted, with the decision of the provider, exactly when the principal holds the
-- scope of all, of the resource or of the action on it, holds the product that the resource belongs
-- to, where it belongs to one, or all products, and the provider allows the action.
pub require_allowed_iff :
    (provider : PolicyProvider) (context : PrincipalContext) (action resource : String)
    (attributes : Option JsonObject) (decision : PolicyDecision)
    → (require_allowed provider context action resource attributes ≡ granted decision) ↔ (
        HasScope action resource context.scopes
        × HasProduct (lookup resource resource_products) context.product_ids
        × (provider context action resource attributes ≡ decision)
        × (decision.allowed ≡ true))
unfolding require_allowed
require_allowed_iff provider context action resource attributes decision =
    let scope = any-HasScope action resource context.scopes in
    let product =
      lacks_product-HasProduct (lookup resource resource_products) context.product_ids in
    elim (Bool-cases
      (any (λ scope. contains scope context.scopes) (required_scopes action resource))) [
        | inr out ↦ rw out (λ h. cc, λ h. absurd (ground (arith, scope.1 h.0, out)))
        | inl within ↦
            elim (Bool-cases
              (lacks_product (lookup resource resource_products) context.product_ids)) [
                | inl lacks ↦
                    rw within
                      (rw lacks (λ h. cc, λ h. absurd (ground (arith, product.1 h.1, lacks))))
                | inr has ↦
                    elim (Bool-cases (provider context action resource attributes).allowed) [
                      | inl allowed ↦ rw within (
                          rw has
                            (rw allowed (λ h. (scope.0 within, product.0 has, cc, cc), λ h. cc)))
                      | inr refused ↦ rw within (rw has (rw refused (λ h. cc, λ h. cc)))
                    ]
              ]
      ]
