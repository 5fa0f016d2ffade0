-- ===== src/Tests/TenancyCases.antt =====
-- A role with capabilities and one without.
use thot_secure.Prelude.{true, ◌≡◌, ◌↔◌, ◌⊎◌}
use thot_secure.Tenancy.{has_capability, has_capability-actions}
use thot_secure.Tests.Toy.{toy}

has_capability-actions_example :
    ((has_capability toy "responder" "execute:actions" ≡ true)
      ↔ ((toy.lower "responder" ≡ "responder") ⊎ (toy.lower "responder" ≡ "admin")))
    × ((has_capability toy "responder" "approve:actions" ≡ true)
        ↔ ((toy.lower "responder" ≡ "responder") ⊎ (toy.lower "responder" ≡ "admin")))
has_capability-actions_example = has_capability-actions toy "responder"
