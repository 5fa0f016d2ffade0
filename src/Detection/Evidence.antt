-- ===== src/Detection/Evidence.antt =====
-- What the analyst sees of an event: `_extract_evidence` and `_render_title` of detection/engine.py,
-- with `redact_secrets` and `truncate` of core/util.py. The substitutions are `re.sub`, a parameter.
use Prim.Native.String.{count}
use thot_secure.Prelude.{
  ℕ, ◌-◌, String, str_append, Option, none, some, List, [], ◌∷◌, ◌++◌, str_eq, ltb, leb, take,
  if◌then◌else◌,
}
use thot_secure.Value.{Value, Dict, null, str, obj, of_dict, get, truthy}
use thot_secure.Platform.{Platform, str_of}
use thot_secure.Detection.Regex.{prefix}
use thot_secure.Detection.Matchers.{compare_texts, below}
use thot_secure.Detection.Rules.{Rule}
use thot_secure.Detection.Engine.{Event}

-- _CONTROL_CHARS
abbrev pub control_chars : String
control_chars = "[\\x00-\\x08\\x0b\\x0c\\x0e-\\x1f\\x7f]"

-- _SECRET_PATTERNS: each pattern with what replaces it.
abbrev pub secret_patterns : List (String × String)
secret_patterns =
    (
      (str_append "-----BEGIN [A-Z ]*PRIVATE KEY-----[\\s\\S]*?-----END [A-Z ]*PRIVATE KEY-"
          ("----")),
      "<private-key-redacted>",
    )
    ∷ ("\\beyJ[A-Za-z0-9_\\-]{8,}\\.[A-Za-z0-9_\\-]{8,}\\.[A-Za-z0-9_\\-]{4,}", "<jwt-redacted>")
    ∷ (
      (str_append "\\b(?:sk|pk|rk|ghp|gho|ghs|ghu|glpat|xox[baprs]|thot)[-_][A-Za-z0-9_\\-]"
          ("{12,}\\b")),
      "<token-redacted>",
    )
    ∷ ("(?i)\\b(proxy-authorization|authorization)\\b\\s*[:=][^\\r\\n]*", "\\1: <redacted>")
    ∷ ("(?i)\\b(set-cookie|cookie)\\b\\s*[:=][^\\r\\n]*", "\\1: <redacted>")
    ∷ ("(?i)\\bbearer\\s+[A-Za-z0-9._\\-+/=]{8,}", "Bearer <redacted>")
    ∷ ("(?i)\\bbasic\\s+[A-Za-z0-9+/=]{8,}", "Basic <redacted>")
    ∷ (
      (str_append "(?i)\\b(password|passwd|pwd|pass|secret|client[_-]?secret|api[_-]?key|a" (
          str_append "pikey|access[_-]?token|refresh[_-]?token|auth[_-]?token|id[_-]?token|t" (
            str_append "oken|jwt|private[_-]?key|passphrase|credential[s]?|session[_-]?id)\\b\\s"
              ("*[:=]\\s*[^\\s,;&\\\"'|]+")))),
      "\\1=<redacted>",
    )
    ∷ (
      (str_append "(?i)([?&](?:token|key|api_key|apikey|access_token|signature|sig)=)[^&\\"
          ("s\\\"']+")),
      "\\1<redacted>",
    )
    ∷ []

-- sorted(keys)[:12]
unfoldable pub insert_key : String → List String → List String
insert_key k [] = k ∷ []
insert_key k (j ∷ js) =
    let rest = insert_key k js in elim (compare_texts j k) [ below ↦ j ∷ rest | _ ↦ k ∷ j ∷ js ]

unfoldable pub sorted_keys : Dict → List String
sorted_keys [] = []
sorted_keys ((k, v) ∷ d) = insert_key k (sorted_keys d)

abbrev pub or_null : Option Value → Value
or_null none = null
or_null (some v) = v

abbrev pub text_or_null : Option String → Value
text_or_null none = null
text_or_null (some s) = str s

-- truncate(s, n), for n ≥ 1
unfoldable pub truncate : ℕ → String → String
truncate n s = if leb (count s) n then s else str_append (prefix (n - 1) s) "…"

-- " ".join(words)
unfoldable pub join_words : List String → String
join_words [] = ""
join_words (w ∷ []) = w
join_words (w ∷ v ∷ ws) = str_append w (str_append " " (join_words (v ∷ ws)))

module _ (py : Platform) where
  -- The loop over the patterns.
  unfoldable pub mask : List (String × String) → String → String
  mask [] text = text
  mask ((pattern, replacement) ∷ rest) text = mask rest (py.sub pattern replacement text)

  unfoldable pub redact_secrets : String → String
  redact_secrets text =
      if str_eq text ""
      then ""
      else let cleaned = mask secret_patterns (py.sub control_chars "" text) in
        if ltb 4096 (count cleaned)
        then str_append (prefix 4096 cleaned)
            (str_append "…<tronqué " (str_append (py.str_int (count cleaned - 4096)) " car.>"))
        else cleaned

  -- {key: truncate(redact_secrets(str(d[key])), n) for key in keys}
  unfoldable pub sampled : ℕ → Dict → List String → Dict
  sampled n d [] = []
  sampled n d (k ∷ ks) =
      (k, str (truncate n (redact_secrets (str_of py (or_null (get k d)))))) ∷ sampled n d ks

  -- `_extract_evidence`, the one sample of its list.
  unfoldable pub extract_evidence : Rule → Event → Value
  extract_evidence rule event = obj (
      of_dict (
        ("ts", str (py.isoformat event.ts))
        ∷ ("event_id", str event.event_id)
        ∷ ("kind", str event.kind)
        ∷ (
          "source",
          obj (
              of_dict (
                ("type", str event.source_type)
                ∷ ("host", text_or_null event.source_host)
                ∷ ("name", text_or_null event.source_name)
                ∷ [])),
        )
        ∷ ("labels", obj (of_dict (sampled 200 event.labels (take 12 (sorted_keys event.labels)))))
        ∷ (
          "payload",
          obj (of_dict (sampled 300 event.payload (take 12 (sorted_keys event.payload)))),
        )
        ∷ ("matched_rule", str rule.id)
        ∷ []))

  -- f"{before}{v}{after}" for a value that counts as true
  abbrev pub shown_if : String → String → Value → List String
  shown_if before after v =
      if truthy v then str_append before (str_append (str_of py v) after) ∷ [] else []

  -- The first of two values that counts as true, each in its own words.
  abbrev pub first_shown : List String → List String → List String
  first_shown [] rest = rest
  first_shown (w ∷ ws) rest = w ∷ ws

  -- `_render_title`
  unfoldable pub render_title : Rule → Event → String
  render_title rule event = prefix 300 (
      join_words (
        rule.title
        ∷ (first_shown (shown_if "depuis " "" (or_null (get "src_ip" event.labels)))
              (shown_if "sur " "" (text_or_null event.source_host))
            ++ first_shown (shown_if "(" ")" (or_null (get "path" event.labels)))
                (shown_if "(" ")" (or_null (get "host" event.labels))))))
