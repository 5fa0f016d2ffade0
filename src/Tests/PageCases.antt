-- ===== src/Tests/PageCases.antt =====
-- Two actions, in pages of one.
use thot_secure.Prelude.{none, [], ◌∷◌, ◌≡◌, ◌≢◌, suc, length, keep, true, false, str_eq, ap, arith}
use thot_secure.Model.{Action, planned}
use thot_secure.Storage.Listing.{ActionQuery, is_listed, in_order}
use thot_secure.Storage.Pages.{from_start}
use thot_secure.Storage.Cursors.{follow, follow-in_order}
use thot_secure.Tests.Stage.{action}
use thot_secure.Tests.Order.{ordered, ordered-IsOrder}

abbrev other : Action
other = record (action planned) { action_id = "another" }

abbrev query : ActionQuery
query = record { status = []; playbook = none; finding_id = none; limit = 1; cursor = none }

differ : (action planned).action_id ≢ "another"
differ e = let no : false ≡ true = ap (λ x. str_eq x "another") e in ground arith

follow-in_order_example :
    follow ordered
      (suc (length (action planned ∷ other ∷ [])))
      "acme"
      (from_start query)
      (action planned ∷ other ∷ [])
    ≡ in_order ordered
        (keep (is_listed ordered "acme" (from_start query)) (action planned ∷ other ∷ []))
follow-in_order_example =
    follow-in_order ordered ordered-IsOrder "acme" query (action planned ∷ other ∷ [])
      ((differ, tt), (tt, tt))
