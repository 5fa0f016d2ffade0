-- ===== src/Actions/Render.antt =====
-- The `${...}` placeholders of playbook parameters: `render_params`, `_render_value`,
-- `_render_string` and `_resolve` of actions/executor.py. `none` is the PlaybookError of a
-- placeholder that does not resolve.
use Prim.Native.Char.{Char, code}
use thot_secure.Prelude.{
  ℕ, ◌≡◌, refl, String, str_append, Option, none, some, List, [], ◌∷◌, ◌++◌, str_eq, ◌==◌,
  if◌then◌else◌,
}
use thot_secure.Value.{
  Value, Items, Fields, Dict, null, boolean, int, float, str, arr, obj, nil, item, end, field,
  to_dict, of_dict, get, put,
}
use thot_secure.Value.Paths.{snoc, split_dots}
use thot_secure.Platform.{Platform, str_of}

-- Where the search for \$\{([^}]+)\} stands: in plain text, after a `$`, or in a placeholder.
pub data Mode : Type 0 where
  outside dollar : Mode
  inside : String → Mode

pub data Segment : Type 0 where
  text placeholder : String → Segment

abbrev pub flush : String → List Segment
flush lit = if str_eq lit "" then [] else text lit ∷ []

-- One character: the mode, the pending plain text and the segments that are complete.
unfoldable pub scan_char : Mode → String → Char → Mode × String × List Segment
scan_char outside lit c = if code c == b'$' then (dollar, lit, []) else (outside, snoc lit c, [])
scan_char dollar lit c =
    if code c == b'{'
    then (inside "", lit, [])
    else if code c == b'$'
    then (dollar, str_append lit "$", [])
    else (outside, snoc (str_append lit "$") c, [])
scan_char (inside name) lit c =
    if code c == b'}'
    then (if str_eq name ""
        then (outside, str_append lit "${}", [])
        else (outside, "", flush lit ++ placeholder name ∷ []))
    else (inside (snoc name c), lit, [])

unfoldable pub scan : Mode → String → String → List Segment
unfolding scan_char
scan outside lit String.[] = flush lit
scan dollar lit String.[] = flush (str_append lit "$")
scan (inside name) lit String.[] = flush (str_append lit (str_append "${" name))
scan m lit (String.◌∷◌ c s) = let (m', lit', done) = scan_char m lit c in done ++ scan m' lit' s

unfoldable pub segments : String → List Segment
unfolding scan
segments template = scan outside "" template

unfoldable pub walk : Value → List String → Option Value
walk v [] = some v
walk (obj fs) (k ∷ ks) = elim (get k (to_dict fs)) [ none ↦ none | some v ↦ walk v ks ]
walk v (k ∷ ks) = none

unfoldable pub resolve : String → Dict → Option Value
unfolding split_dots walk
resolve path context = walk (obj (of_dict context)) (split_dots "" path)

-- "" if value is None else str(value)
abbrev pub shown : Platform → Value → String
shown py null = ""
shown py v = str_of py v

module _ (py : Platform) (context : Dict) where
  unfoldable pub substitute : List Segment → Option String
  substitute [] = some ""
  substitute (text t ∷ ss) = elim (substitute ss) [ none ↦ none | some r ↦ some (str_append t r) ]
  substitute (placeholder p ∷ ss) = elim (resolve p context) [
    | none ↦ none
    | some v ↦ elim (substitute ss) [ none ↦ none | some r ↦ some (str_append (shown py v) r) ]
  ]

  -- A template that is one placeholder keeps the type of its value.
  unfoldable pub render_segments : List Segment → Option Value
  unfolding substitute
  render_segments (placeholder p ∷ []) = resolve p context
  render_segments ss = elim (substitute ss) [ none ↦ none | some r ↦ some (str r) ]

  unfoldable pub render_string : String → Option Value
  unfolding render_segments segments
  render_string template = render_segments (segments template)

  abbrev pub cons_item : Option Value → Option Items → Option Items
  cons_item none vs = none
  cons_item (some v) none = none
  cons_item (some v) (some vs) = some (item v vs)

  abbrev pub cons_field : String → Option Value → Option Fields → Option Fields
  cons_field k none fs = none
  cons_field k (some v) none = none
  cons_field k (some v) (some fs) = some (field k v fs)

  abbrev pub as_arr : Option Items → Option Value
  as_arr none = none
  as_arr (some vs) = some (arr vs)

  abbrev pub as_obj : Option Fields → Option Value
  as_obj none = none
  as_obj (some fs) = some (obj fs)

  unfoldable mutual
    pub render_value : Value → Option Value
    render_value (str s) = render_string s
    render_value (obj fs) = as_obj (render_fields fs)
    render_value (arr vs) = as_arr (render_items vs)
    render_value null = some null
    render_value (boolean b) = some (boolean b)
    render_value (int n) = some (int n)
    render_value (float x) = some (float x)

    pub render_items : Items → Option Items
    render_items nil = some nil
    render_items (item v vs) = cons_item (render_value v) (render_items vs)

    pub render_fields : Fields → Option Fields
    render_fields end = some end
    render_fields (field k v fs) = cons_field k (render_value v) (render_fields fs)

  abbrev pub as_dict : Option Fields → Option Dict
  as_dict none = none
  as_dict (some fs) = some (to_dict fs)

  -- `render_params`, on the `with` of a step.
  unfoldable pub render_params : Dict → Option Dict
  unfolding render_fields
  render_params with_ = as_dict (render_fields (of_dict with_))

-- `_build_context`: the parameters of this rendering win over those of the context.
unfoldable pub build_context : Platform → ℕ → Dict → Dict → Dict
build_context py now params context =
    put "now" (str (py.isoformat now)) (put "params" (obj (of_dict params)) context)

-- A whole placeholder keeps its value's type; another text is joined; an unknown path is refused.
render_examples :
    (py : Platform)
    → let context = build_context py 0 (("ttl", int 60) ∷ ("ip", str "203.0.113.9") ∷ []) [] in
      (render_string py context "${params.ttl}" ≡ some (int 60))
      × (render_string py context "ip=${params.ip} $ {" ≡ some (str "ip=203.0.113.9 $ {"))
      × (render_string py context "${params.target}" ≡ none)
      × (render_string py context "${}" ≡ some (str "${}"))
unfolding render_string build_context put resolve get str_of
render_examples py = (refl, refl, refl, refl)
