-- ===== src/Util.antt =====
-- libtianya/include/util.hpp: addresses, the page's character set and conversions of text, and the
-- std::atol and stream output of numbers that the callers use.
pub mod Decimal
pub mod Locale
pub mod Tests
use tianya.Prelude.{
  ℕ, zero, suc, ◌+◌, ◌-◌, ◌*◌, ◌/◌, ◌%◌, ◌^◌, ℤ, pos, negsuc, negate, Bool, true, false, ◌&&◌, ◌||◌,
  Option, none, some, List, [], ◌∷◌, ◌++◌, ltb, leb, ◌==◌, if◌then◌else◌,
}
use tianya.Text.{Text, codes, equal, is_empty}
use tianya.Boost.{Boost, capture}

-- std::isspace in the "C" locale.
abbrev pub is_blank : ℕ → Bool
is_blank c = c == 32 || leb 9 c && leb c 13

abbrev pub is_digit : ℕ → Bool
is_digit c = leb b'0' c && leb c b'9'

unfoldable pub skip_blank : Text → Text
skip_blank [] = []
skip_blank (c ∷ cs) = if is_blank c then skip_blank cs else c ∷ cs

-- The digits up to the first character that is none, read onto a number.
unfoldable pub read_digits : ℕ → Text → ℕ
read_digits acc [] = acc
read_digits acc (c ∷ cs) =
    let more = read_digits (acc * 10 + (c - b'0')) cs in if is_digit c then more else acc

-- An optional sign and digits.
unfoldable pub read_signed : Text → ℤ
unfolding read_digits
read_signed [] = pos 0
read_signed (c ∷ cs) =
    if c == b'-'
    then negate (read_digits 0 cs)
    else if c == b'+'
    then pos (read_digits 0 cs)
    else pos (read_digits 0 (c ∷ cs))

-- std::atol, for values that a `long` holds.
unfoldable pub atol : Text → ℤ
unfolding skip_blank read_signed
atol s = read_signed (skip_blank s)

-- The conversion of a `long` to a 32-bit `int`.
unfoldable pub to_int : ℤ → ℤ
to_int (pos n) =
    if ltb (n % 2 ^ 32) (2 ^ 31) then pos (n % 2 ^ 32) else negsuc (2 ^ 32 - 1 - n % 2 ^ 32)
to_int (negsuc n) =
    if ltb (n % 2 ^ 32) (2 ^ 31) then negsuc (n % 2 ^ 32) else pos (2 ^ 32 - 1 - n % 2 ^ 32)

-- `stream << n`: the decimal digits, put in front of what follows; fuel n + 1 is enough for n.
unfoldable pub put_digits : ℕ → ℕ → Text → Text
put_digits zero n rest = rest
put_digits (suc fuel) n rest =
    let higher = put_digits fuel (n / 10) ((b'0' + n % 10) ∷ rest) in
    if ltb n 10 then (b'0' + n) ∷ rest else higher

unfoldable pub put_int : ℤ → Text
unfolding put_digits
put_int (pos n) = put_digits (suc n) n []
put_int (negsuc n) = b'-' ∷ put_digits (suc (suc n)) (suc n) []

pub record UrlInfo : Type 0 where
  pub protocol : Text
  pub domain : Text
  pub port : ℤ
  pub path : Text
  pub query : Text
  pub fragment : Text

abbrev pub no_url : UrlInfo
no_url = record {
  protocol = [];
  domain = [];
  port = negsuc 0;
  path = [];
  query = [];
  fragment = [];
}

abbrev pub url_pattern : Text
url_pattern = codes "(http|https)://([^/ :]+):?([^/ ]*)(/?[^ #?]*)\\x3f?([^ #]*)#?([^ ]*)"

-- The port that the address names, or the protocol's own; -1 stays where neither is known.
unfoldable pub url_port : Text → Text → ℤ
unfolding is_empty equal atol to_int
url_port protocol port =
    if is_empty port
    then (if equal protocol (codes "http")
        then pos 80
        else if equal protocol (codes "https")
        then pos 443
        else negsuc 0)
    else to_int (atol port)

unfoldable pub parser_url : Boost → Text → UrlInfo
unfolding url_port
parser_url b url = elim (b.regex_match url_pattern url) [
  | none ↦ no_url
  | some what ↦ record {
    protocol = capture what 1;
    domain = capture what 2;
    port = url_port (capture what 1) (capture what 3);
    path = capture what 4;
    query = capture what 5;
    fragment = capture what 6;
  }
]

abbrev pub charset_pattern : Text
charset_pattern = codes "charset=([a-zA-Z0-9\\-_]+)"

abbrev pub meta_charset_pattern : Text
meta_charset_pattern = codes "<meta charset=[\"']?([a-zA-Z0-9\\-_]+)[\"']?"

unfoldable pub get_chareset : Boost → Text → Text
get_chareset b html_line = elim (b.regex_search charset_pattern html_line) [
  | some what ↦ capture what 1
  | none ↦ elim (b.regex_search meta_charset_pattern html_line) [
    | some what ↦ capture what 1
    | none ↦ codes "UTF-8"
  ]
]

-- ansi_utf8 and ansi_wide with a character set; `none` is the exception of `between`.
unfoldable pub ansi_utf8 : Boost → Text → Text → Option Text
ansi_utf8 b source characters = b.between source (codes "UTF-8") characters

unfoldable pub ansi_wide : Boost → Text → Text → Option Text
unfolding ansi_utf8
ansi_wide b source characters = elim (ansi_utf8 b source characters) [
  | none ↦ none
  | some s ↦ some (b.utf8_to_wide s)
]

unfoldable pub wide_utf8 : Boost → Text → Text
wide_utf8 b source = b.wide_to_utf8 source

unfoldable pub utf8_wide : Boost → Text → Text
utf8_wide b source = b.utf8_to_wide source

unfoldable pub utf8_ansi : Boost → Text → Text → Option Text
utf8_ansi b source characters = b.between source characters (codes "UTF-8")

unfoldable pub wide_ansi : Boost → Text → Text → Option Text
unfolding utf8_ansi wide_utf8
wide_ansi b source characters = utf8_ansi b (wide_utf8 b source) characters
