-- ===== src/Tests/BusCases.antt =====
-- Three publications to a queue of two places, from which a consumer takes one event.
use thot_secure.Prelude.{none, some, List, [], ◌∷◌, ◌≡◌, refl}
use thot_secure.Detection.Engine.{Event}
use thot_secure.Bus.{
  Bus, new_bus, offer, dispatch, publish, subscribe, unsubscribe, take_from, consume, discard,
  Operation, publishing, subscribing, unsubscribing, consuming, perform, perform_all,
}
use thot_secure.Bus.Accounts.{Sound, perform_all-Sound}

abbrev note : Event
note = record {
  event_id = "ev_1";
  tenant_id = "acme";
  ts = 1000;
  kind = "auth";
  source_type = "syslog";
  source_name = none;
  source_host = none;
  labels = [];
  payload = [];
  dump = [];
}

abbrev traffic : List Operation
traffic =
    subscribing (some 2)
    ∷ subscribing none
    ∷ publishing note
    ∷ publishing note
    ∷ publishing note
    ∷ consuming 0
    ∷ unsubscribing 1
    ∷ []

abbrev after : Bus
after = perform_all traffic (new_bus 1000)

counted : after.delivered ∷ after.dropped ∷ after.taken ∷ after.abandoned ∷ [] ≡ 6 ∷ 1 ∷ 1 ∷ 3 ∷ []
unfolding perform publish dispatch offer subscribe consume take_from unsubscribe discard
counted = refl

perform_all-Sound_example : Sound (perform_all traffic (new_bus 1000))
perform_all-Sound_example = perform_all-Sound 1000 traffic
