-- ===== src/Tests/DetectionCases.antt =====
-- Rules and events: a threshold of two failed logins of one address.
use thot_secure.Prelude.{
  ℕ, true, false, none, some, [], ◌∷◌, ◌+◌, ◌≡◌, ◌↔◌, not, min, leb, ◌&&◌, ◌||◌, refl, arith,
}
use thot_secure.Value.{str, int, obj, of_dict}
use thot_secure.Detection.Matchers.{Condition, compare_values}
use thot_secure.Detection.Rules.{Rule}
use thot_secure.Detection.Loading.{CompiledRule}
use thot_secure.Detection.Engine.{
  Event, DetectionEngine, max_window_entries, is_candidate, evaluate,
}
use thot_secure.Detection.Firing.{fires}
use thot_secure.Detection.Streams.{evaluate_all, end_of, in_window, evaluate-threshold}
use thot_secure.Detection.Single.{Strikes, evaluate-single}
use thot_secure.Detection.Complements.{satisfies, has_raised, comparable, evaluate_op-complements}
use thot_secure.Tests.Toy.{toy}

abbrev failed_login : Condition
failed_login = record {
  field_path = "labels.outcome";
  op = "eq";
  value = str "failure";
  case_sensitive = true;
  negate = false;
}

abbrev brute_force : ℕ → Rule
brute_force n = record {
  id = "AUTH-1";
  title = "Brute force";
  severity = "high";
  enabled = true;
  tags = [];
  source_types = [];
  kinds = [];
  match_spec = record {
    all_of = failed_login ∷ [];
    any_of = [];
    none_of = [];
    threshold = some (record { count = n; window_seconds = 60; group_by = "labels.src_ip" ∷ [] });
  };
  dedup_key = [];
  dedup_ttl_seconds = 900;
  confidence = 80;
  risk_base = none;
  asset_criticality = 100;
  remediation = "";
  false_positives = [];
  path = none;
}

abbrev entry_of : ℕ → CompiledRule
entry_of n = record {
  rule = brute_force n;
  source_types = [];
  kinds = [];
  dedup_fields = [];
  group_fields = "labels.src_ip" ∷ [];
  threshold_count = n;
  window_seconds = 60;
}

abbrev login : Event
login = record {
  event_id = "ev_1";
  tenant_id = "acme";
  ts = 1000;
  kind = "auth";
  source_type = "syslog";
  source_name = none;
  source_host = none;
  labels = [];
  payload = [];
  dump =
      ("labels", obj (of_dict (("outcome", str "failure") ∷ ("src_ip", str "10.0.0.9") ∷ []))) ∷ [];
}

abbrev engine_of : ℕ → DetectionEngine
engine_of n = record {
  compiled = entry_of n ∷ [];
  by_id = [];
  windows = [];
  evaluated = 0;
  matched = 0;
  threshold_suppressed = 0;
}

evaluate-threshold_example :
    fires toy "AUTH-1"
      (evaluate toy login
        (end_of toy ((1000, login) ∷ []) 0 + 500)
        (evaluate_all toy ((1000, login) ∷ []) 0 (engine_of 2))).0
    ≡ (is_candidate toy (entry_of 2) login
        && leb 2
            (min max_window_entries (in_window toy (entry_of 2) ((1000, login) ∷ []) 0 500 login)))
evaluate-threshold_example =
    evaluate-threshold toy [] [] (entry_of 2) ((1000, login) ∷ []) 0 500 login (engine_of 2) refl
      refl refl refl (omega arith)

evaluate-single_example :
    (fires toy "AUTH-1" (evaluate toy login 7 (engine_of 1)).0 ≡ true)
    ↔ Strikes toy (entry_of 1) login
evaluate-single_example =
    evaluate-single toy [] [] (entry_of 1) login 7 (engine_of 1) refl refl refl (omega arith)

evaluate_op-complements_example :
    (satisfies toy true (int 3) (int 4) "ne" ≡ (
      not (satisfies toy true (int 3) (int 4) "eq")
      && not (has_raised (compare_values toy (int 3) (int 4)))))
    × ((satisfies toy true (int 3) (int 4) "eq" && has_raised (compare_values toy (int 3) (int 4)))
        ≡ false)
    × (satisfies toy true (int 3) (int 4) "not_in" ≡ not (satisfies toy true (int 3) (int 4) "in"))
    × ((satisfies toy true (int 3) (int 4) "lt" && satisfies toy true (int 3) (int 4) "gte")
        ≡ false)
    × ((satisfies toy true (int 3) (int 4) "gt" && satisfies toy true (int 3) (int 4) "lte")
        ≡ false)
    × ((satisfies toy true (int 3) (int 4) "lt" || satisfies toy true (int 3) (int 4) "gte")
        ≡ comparable (compare_values toy (int 3) (int 4)))
    × ((satisfies toy true (int 3) (int 4) "gt" || satisfies toy true (int 3) (int 4) "lte")
        ≡ comparable (compare_values toy (int 3) (int 4)))
evaluate_op-complements_example = evaluate_op-complements toy true (int 3) (int 4) refl refl
