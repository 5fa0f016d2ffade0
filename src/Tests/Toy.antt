-- ===== src/Tests/Toy.antt =====
-- A concrete platform: texts are compared as they are, `10.0.0.x` is an address of `10.0.0.0/24`.
use thot_secure.Prelude.{true, false, none, str_eq, ltb}
use text.Mathlib.Text.{starts_with}
use thot_secure.Platform.{Platform}

abbrev pub toy : Platform
toy = record {
  strip = λ s. s;
  lower = λ s. s;
  str_int = λ n. "n";
  str_float = λ x. "x";
  str_container = λ v. "[]";
  parse_float = λ s. none;
  parse_int = λ s. none;
  leading_number = λ s. none;
  fits_float = λ n. ltb n 1000000;
  is_address = λ s. starts_with s "10.0.0.";
  is_network = λ s. str_eq s "10.0.0.0/24";
  in_network = λ a n. true;
  sha256_hexdigest = λ s. s;
  scrypt = λ p s. s;
  json_dumps = λ d. "{}";
  json_text = λ d. "{}";
  isoformat = λ t. "t";
  like = λ p s. false;
  text_before = λ a b. false;
  search = λ p i s. none;
  sub = λ p r s. s;
}

-- A hash that is never the word `genesis`.
abbrev pub constant_hash : Platform
constant_hash = record toy { sha256_hexdigest = λ s. "0" }
