-- ===== src/Tenancy.antt =====
-- tenancy/rbac.py: the roles and their capabilities. A role is a text, and so is a capability.
pub mod Table
pub mod Keys
mod Rows
pub mod Access
pub mod Authentication
pub mod Issue
use thot_secure.Prelude.{
  String, Bool, true, false, List, [], ◌∷◌, ◌≡◌, ◌↔◌, ◌⊎◌, str_eq, eq_iff, arith, if◌then◌else◌,
  not, ◌&&◌, ◌||◌, refl, inl, inr,
}
use thot_secure.Value.{is_in}
use thot_secure.Platform.{Platform}

abbrev pub viewer_capabilities : List String
viewer_capabilities =
    "read:events" ∷ "read:findings" ∷ "read:rules" ∷ "read:policies" ∷ "read:audit" ∷ "read:stats"
    ∷ []

abbrev pub analyst_capabilities : List String
analyst_capabilities =
    "read:events" ∷ "read:findings" ∷ "read:rules" ∷ "read:policies" ∷ "read:audit" ∷ "read:stats"
    ∷ "write:events" ∷ "write:findings" ∷ []

abbrev pub responder_capabilities : List String
responder_capabilities =
    "read:events" ∷ "read:findings" ∷ "read:rules" ∷ "read:policies" ∷ "read:audit" ∷ "read:stats"
    ∷ "write:events" ∷ "write:findings" ∷ "execute:actions" ∷ "approve:actions" ∷ []

abbrev pub admin_capabilities : List String
admin_capabilities =
    "read:events" ∷ "read:findings" ∷ "read:rules" ∷ "read:policies" ∷ "read:audit" ∷ "read:stats"
    ∷ "write:events" ∷ "write:findings" ∷ "execute:actions" ∷ "approve:actions" ∷ "admin:tenants"
    ∷ "admin:keys" ∷ "admin:rules" ∷ "admin:policies" ∷ "admin:system" ∷ []

-- _ROLE_CAPABILITIES.get(role, frozenset())
unfoldable pub role_capabilities : String → List String
role_capabilities role =
    if str_eq role "viewer"
    then viewer_capabilities
    else if str_eq role "analyst"
    then analyst_capabilities
    else if str_eq role "responder"
    then responder_capabilities
    else if str_eq role "admin"
    then admin_capabilities
    else []

abbrev granted : Bool → Bool → Bool → Bool → List String
granted viewer analyst responder admin =
    if viewer
    then viewer_capabilities
    else if analyst
    then analyst_capabilities
    else if responder
    then responder_capabilities
    else if admin
    then admin_capabilities
    else []

acting : (a b c d : Bool) → is_in "execute:actions" (granted a b c d) ≡ (not a && not b && (c || d))
unfolding is_in
acting true b c d = refl
acting false true c d = refl
acting false false true d = refl
acting false false false true = refl
acting false false false false = refl

approving :
    (a b c d : Bool) → is_in "approve:actions" (granted a b c d) ≡ (not a && not b && (c || d))
unfolding is_in
approving true b c d = refl
approving false true c d = refl
approving false false true d = refl
approving false false false true = refl
approving false false false false = refl

role_acts :
    (role capability : String)
    → ((a b c d : Bool) → is_in capability (granted a b c d) ≡ (not a && not b && (c || d)))
    → (is_in capability (role_capabilities role) ≡ true) ↔ ((role ≡ "responder") ⊎ (role ≡ "admin"))
unfolding role_capabilities
role_acts role capability h =
    rw
      (h (str_eq role "viewer") (str_eq role "analyst") (str_eq role "responder")
        (str_eq role "admin"))
      (
        λ e. ground (arith, eq_iff role "responder", eq_iff role "admin"),
        λ e. elim e [ inl f ↦ rw f refl | inr f ↦ rw f refl ],
      )

module _ (py : Platform) where
  unfoldable pub capabilities_for : String → List String
  capabilities_for role = role_capabilities (py.lower role)

  unfoldable pub has_capability : String → String → Bool
  has_capability role capability = is_in capability (capabilities_for role)

  -- Exactly the roles `responder` and `admin`, in any case of letters, may execute actions, and
  -- exactly they may approve them; no other text is a role with these capabilities.
  pub has_capability-actions :
      (role : String)
      → ((has_capability role "execute:actions" ≡ true)
          ↔ ((py.lower role ≡ "responder") ⊎ (py.lower role ≡ "admin")))
        × ((has_capability role "approve:actions" ≡ true)
            ↔ ((py.lower role ≡ "responder") ⊎ (py.lower role ≡ "admin")))
  unfolding has_capability capabilities_for
  has_capability-actions role = (
    role_acts (py.lower role) "execute:actions" acting,
    role_acts (py.lower role) "approve:actions" approving,
  )
