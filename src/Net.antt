-- ===== src/Net.antt =====
-- The addresses and hosts of core/util.py. A text is walked character by character.
use Prim.Native.Char.{code}
use thot_secure.Prelude.{
  ℕ, ◌+◌, String, Bool, false, Option, none, some, List, ◌==◌, leb, ◌&&◌, ◌||◌, any, ◌≡◌, refl,
  if◌then◌else◌,
}
use thot_secure.Platform.{Platform}

module _ (py : Platform) where
  unfoldable pub is_valid_ip : String → Bool
  is_valid_ip value = py.is_address (py.strip value)

  unfoldable pub is_valid_cidr : String → Bool
  is_valid_cidr value = py.is_network (py.strip value)

  unfoldable pub ip_in_cidrs : String → List String → Bool
  ip_in_cidrs ip cidrs =
      py.is_address (py.strip ip)
      && any (λ c. py.is_network (py.strip c) && py.in_network (py.strip ip) (py.strip c)) cidrs

-- "c" in text
unfoldable pub has_char : ℕ → String → Bool
has_char c String.[] = false
has_char c (String.◌∷◌ d s) = code d == c || has_char c s

-- text.count(c)
unfoldable pub count_char : ℕ → String → ℕ
count_char c String.[] = 0
count_char c (String.◌∷◌ d s) = (if code d == c then 1 else 0) + count_char c s

-- text.split(c, 1)[0]
unfoldable pub before_char : ℕ → String → String
before_char c String.[] = ""
before_char c (String.◌∷◌ d s) =
    let rest = before_char c s in if code d == c then "" else String.◌∷◌ d rest

-- text.split(c)[-1]
unfoldable pub after_last : ℕ → String → String
after_last c String.[] = ""
after_last c (String.◌∷◌ d s) =
    let rest = after_last c s in
    if has_char c s then rest else if code d == c then s else String.◌∷◌ d s

-- text.lstrip(c)
unfoldable pub lstrip_char : ℕ → String → String
lstrip_char c String.[] = ""
lstrip_char c (String.◌∷◌ d s) =
    let rest = lstrip_char c s in if code d == c then rest else String.◌∷◌ d s

unfoldable pub is_lower_letter : ℕ → Bool
is_lower_letter c = leb b'a' c && leb c b'z'

-- [a-z0-9+.-]
unfoldable pub is_scheme_char : ℕ → Bool
unfolding is_lower_letter
is_scheme_char c =
    is_lower_letter c || (leb b'0' c && leb c b'9') || c == b'+' || c == b'.' || c == b'-'

drop_slashes : String → Option String
drop_slashes (String.◌∷◌ a (String.◌∷◌ b s)) =
    if code a == b'/' && code b == b'/' then some s else none
drop_slashes s = none

-- What follows [a-z0-9+.-]*:// at the start of the text.
unfoldable pub after_scheme : String → Option String
unfolding is_scheme_char drop_slashes
after_scheme String.[] = none
after_scheme (String.◌∷◌ c s) =
    let rest = after_scheme s in
    if is_scheme_char (code c) then rest else if code c == b':' then drop_slashes s else none

-- re.sub(r"^[a-z][a-z0-9+.-]*://", "", text)
unfoldable pub strip_scheme : String → String
unfolding is_lower_letter after_scheme
strip_scheme String.[] = ""
strip_scheme (String.◌∷◌ c s) =
    if is_lower_letter (code c)
    then (elim (after_scheme s) [ none ↦ String.◌∷◌ c s | some rest ↦ rest ])
    else String.◌∷◌ c s

starts_bracket : String → Bool
starts_bracket String.[] = false
starts_bracket (String.◌∷◌ c s) = code c == b'['

unfoldable pub strip_port : String → String
unfolding starts_bracket before_char lstrip_char count_char
strip_port text =
    if starts_bracket text
    then lstrip_char b'[' (before_char b']' text)
    else if count_char b':' text == 1
    then before_char b':' text
    else text

unfoldable pub normalize_host : Platform → String → String
unfolding strip_scheme strip_port before_char after_last has_char
normalize_host py value =
    strip_port (after_last b'@' (before_char b'/' (strip_scheme (py.lower (py.strip value)))))

normalize_host_url :
    (py : Platform)
    → py.strip "https://ops@Shop.Acme.fr:8443/x" ≡ "https://ops@shop.acme.fr:8443/x"
    → py.lower "https://ops@shop.acme.fr:8443/x" ≡ "https://ops@shop.acme.fr:8443/x"
    → normalize_host py "https://ops@Shop.Acme.fr:8443/x" ≡ "shop.acme.fr"
unfolding normalize_host
normalize_host_url py e f = rw (e, f) refl
