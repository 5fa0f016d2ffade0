-- ===== src/Detection/Regex.antt =====
-- The regular expressions of detection/matchers.py: which patterns are refused, and a search that
-- never raises. The matching itself is Python's `re`, the parameter `search`: `search pattern
-- ignore_case text` is none for a pattern that does not compile.
use Prim.Native.String.{count}
use thot_secure.Prelude.{
  ℕ, zero, suc, String, Bool, false, Option, none, some, ltb, not, ◌||◌, if◌then◌else◌,
}
use thot_secure.Platform.{Platform}

abbrev pub max_regex_input : ℕ
max_regex_input = 8192

abbrev pub max_regex_pattern : ℕ
max_regex_pattern = 2048

abbrev nested_quantifier : String
nested_quantifier = "(\\([^)]*[+*][^)]*\\)|\\[[^\\]]*\\][+*]|\\.\\*)[+*{]"

abbrev quantified_group : String
quantified_group = "\\((?:[^()|]*[+*])[^()|]*\\)\\s*[+*{]"

abbrev pub found : Option Bool → Bool
found none = false
found (some b) = b

-- text[:n]
unfoldable pub prefix : ℕ → String → String
prefix zero s = ""
prefix (suc n) String.[] = ""
prefix (suc n) (String.◌∷◌ c s) = String.◌∷◌ c (prefix n s)

module _ (py : Platform) where
  unfoldable pub looks_like_redos : String → Bool
  looks_like_redos pattern =
      ltb max_regex_pattern (count pattern)
      || found (py.search nested_quantifier false pattern)
      || found (py.search quantified_group false pattern)

  -- `compile_regex(pattern).search(text)`, none for RegexTooComplexError.
  unfoldable pub compile_search : String → Bool → String → Option Bool
  compile_search pattern case_sensitive text =
      if ltb max_regex_pattern (count pattern)
      then none
      else if looks_like_redos pattern
      then none
      else py.search pattern (not case_sensitive) text
