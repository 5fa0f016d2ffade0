-- ===== src/Platform.antt =====
-- What the program takes from Python, its standard library and SQLite, as parameters.
-- Times count milliseconds, the resolution of `iso_z`.
use thot_secure.Prelude.{ℕ, String, Bool, true, false, Option}
use thot_secure.Value.{Value, Dict, null, boolean, int, float, str, arr, obj}

pub record Platform : Type 0 where
  -- str.strip, str.lower
  pub strip : String → String
  pub lower : String → String
  -- str(n) of an int, str(x) of a float, str(x) of a list or a dict
  pub str_int : ℕ → String
  pub str_float : ℕ → String
  pub str_container : Value → String
  -- float(s), none for ValueError
  pub parse_float : String → Option ℕ
  -- int(s), none for ValueError
  pub parse_int : String → Option ℕ
  -- float(m.group(1)) for re.match(r"^([-+]?\d+(?:\.\d+)?)", s), none without a match
  pub leading_number : String → Option ℕ
  -- float(n) of an int does not raise OverflowError
  pub fits_float : ℕ → Bool
  -- ipaddress.ip_address(s) and ipaddress.ip_network(s, strict=False) do not raise
  pub is_address : String → Bool
  pub is_network : String → Bool
  -- ip_address(a) in ip_network(n, strict=False), for valid texts
  pub in_network : String → String → Bool
  -- hashlib.sha256(s.encode()).hexdigest()
  pub sha256_hexdigest : String → String
  -- f"scrypt$8192$8$1${hashlib.scrypt(key, salt=pepper, …).hex()}", the pepper first
  pub scrypt : String → String → String
  -- json.dumps(d, sort_keys=True, separators=(",", ":"), ensure_ascii=True)
  pub json_dumps : Dict → String
  -- json.dumps(d, ensure_ascii=False)
  pub json_text : Dict → String
  -- datetime.isoformat(timespec="milliseconds"), with Z
  pub isoformat : ℕ → String
  -- SQLite's `text LIKE pattern`, the pattern first
  pub like : String → String → Bool
  -- SQLite's < on texts
  pub text_before : String → String → Bool
  -- re.compile(pattern, IGNORECASE or 0).search(text), none for re.error
  pub search : String → Bool → String → Option Bool
  -- re.compile(pattern).sub(replacement, text), for a pattern that compiles
  pub sub : String → String → String → String

-- str(v)
unfoldable pub str_of : Platform → Value → String
str_of py null = "None"
str_of py (boolean true) = "True"
str_of py (boolean false) = "False"
str_of py (int n) = py.str_int n
str_of py (float x) = py.str_float x
str_of py (str s) = s
str_of py (arr vs) = py.str_container (arr vs)
str_of py (obj fs) = py.str_container (obj fs)
