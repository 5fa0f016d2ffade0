-- ===== src/Actions/Evidence.antt =====
-- What the engines read from the evidence of a finding: `extract_targets` and
-- `resolve_param_target` of decision/engine.py, and the parameter paths of actions/engine.py.
use Prim.Native.Char.{code}
use thot_secure.Prelude.{
  String, Bool, false, Option, none, some, List, [], ◌∷◌, str_eq, leb, not, reverse, ◌&&◌,
  if◌then◌else◌,
}
use text.Mathlib.Text.{starts_with}
use thot_secure.Value.{Value, Dict, null, str, arr, obj, to_list, to_dict, get, put, is_in, truthy}
use thot_secure.Platform.{Platform, str_of}
use thot_secure.Net.{has_char, before_char}
use thot_secure.Model.{Finding}
use thot_secure.Value.Paths.{deep_get}

-- finding.evidence.get("samples") or []
unfoldable pub samples : Finding → List Value
samples f = elim (get "samples" f.evidence) [
  | none ↦ []
  | some v ↦ elim v [ arr vs ↦ to_list vs | _ ↦ [] ]
]

abbrev pub as_dict : Option Value → Dict
as_dict none = []
as_dict (some (obj fs)) = to_dict fs
as_dict (some v) = []

-- The first of the keys with a value that counts as true, as a text.
unfoldable pub first_text : Platform → List String → Dict → Option String
first_text py [] labels = none
first_text py (k ∷ ks) labels = elim (get k labels) [
  | none ↦ first_text py ks labels
  | some v ↦ if truthy v then some (str_of py v) else first_text py ks labels
]

abbrev pub is_truthy : Option Value → Bool
is_truthy none = false
is_truthy (some v) = truthy v

abbrev pub or_null : Option Value → Value
or_null none = null
or_null (some v) = v

-- The labels of a sample, with the host of its source if they have none.
unfoldable pub labels_of : Value → Dict
labels_of (obj fs) =
    let labels = as_dict (get "labels" (to_dict fs)) in
    let host = get "host" (as_dict (get "source" (to_dict fs))) in
    if is_truthy host && not (is_truthy (get "host" labels))
    then put "host" (or_null host) labels
    else labels
labels_of v = []

abbrev pub host_keys : List String
host_keys = "host" ∷ "asset" ∷ "target_host" ∷ "vhost" ∷ "server" ∷ "fqdn" ∷ []

abbrev pub target_hints : List String
target_hints = "src_ip" ∷ "source_ip" ∷ "client_ip" ∷ "remote_addr" ∷ "attacker_ip" ∷ []

abbrev pub last_labels : List Value → Dict
last_labels [] = []
last_labels (v ∷ vs) = labels_of v

-- The host of the asset and the target, from the last sample.
unfoldable pub extract_targets : Platform → Finding → Option String × Option String
extract_targets py f =
    let labels = last_labels (reverse (samples f)) in
    (first_text py host_keys labels, first_text py target_hints labels)

unfoldable pub first_found : Platform → String → List Value → Option String
first_found py path [] = none
first_found py path (s ∷ rest) =
    let v = deep_get s path in if truthy v then some (str_of py v) else first_found py path rest

unfoldable pub resolve_param_target : Platform → Finding → String → Option String
unfolding first_found
resolve_param_target py f path =
    if str_eq path "" then none else first_found py path (reverse (samples f))

unfoldable pub looks_like_field_path : String → Bool
looks_like_field_path value =
    has_char b'.' value
    && not (has_char b' ' value)
    && not (starts_with value "http://")
    && not (starts_with value "https://")
    && is_in (before_char b'.' value) ("labels" ∷ "payload" ∷ "source" ∷ "evidence" ∷ [])

-- A parameter that is a path to the evidence, replaced by what stands there.
unfoldable pub resolve_path : Platform → Finding → Value → Value
resolve_path py f (str s) =
    if looks_like_field_path s
    then (elim (resolve_param_target py f s) [ none ↦ str s | some r ↦ str r ])
    else str s
resolve_path py f v = v

unfoldable pub resolve_params : Platform → Finding → Dict → Dict
resolve_params py f [] = []
resolve_params py f ((k, v) ∷ params) = (k, resolve_path py f v) ∷ resolve_params py f params

-- `_resolve_param_paths`
unfoldable pub resolve_param_paths : Platform → Option Finding → Dict → Dict
resolve_param_paths py none params = params
resolve_param_paths py (some f) params = resolve_params py f params

-- params.get(a) or …, where None is null
abbrev pub or_else : Option Value → Value → Value
or_else none w = w
or_else (some v) w = if truthy v then v else w

abbrev pub starts_with_digit : String → Bool
starts_with_digit String.[] = false
starts_with_digit (String.◌∷◌ c s) = leb b'0' (code c) && leb (code c) b'9'

abbrev pub resolve_text : Platform → Option Finding → String → String
resolve_text py none text = text
resolve_text py (some f) text =
    if has_char b'.' text && not (has_char b'/' text) && not (starts_with_digit text)
    then (elim (resolve_param_target py f text) [ none ↦ text | some r ↦ r ])
    else text

abbrev pub infer_target : Platform → Option Finding → Option String
infer_target py none = none
infer_target py (some f) = (extract_targets py f).1

unfoldable pub target_from : Platform → Option Finding → Value → Option String
target_from py finding null = infer_target py finding
target_from py finding v = some (resolve_text py finding (str_of py v))

-- `_resolve_target_value`
unfoldable pub resolve_target_value : Platform → Dict → Option Finding → Option String
unfolding target_from
resolve_target_value py params finding =
    target_from py finding
      (or_else (get "target" params) (or_else (get "ip" params) (or_null (get "path" params))))
