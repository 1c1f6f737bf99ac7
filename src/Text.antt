-- ===== src/Text.antt =====
-- std::basic_string as the source uses it: a string of characters or of bytes is a list of codes,
-- a position that may be `npos` is an optional number.
pub mod Find
use Prim.Native.Char.{code}
use Prim.Native.String.{String}
use tianya.Prelude.{
  ℕ, suc, ◌+◌, ◌≡◌, ◌↔◌, Bool, true, false, ◌&&◌, ◌||◌, not, Option, none, some, List, [], ◌∷◌,
  ◌++◌, arith, ◌==◌, if◌then◌else◌, take, drop, length,
}

abbrev pub Text : Type 0
Text = List ℕ

-- The codes of a literal.
abbrev pub codes : String → Text
codes String.[] = []
codes (String.◌∷◌ c s) = code c ∷ codes s

-- operator==
unfoldable pub equal : Text → Text → Bool
equal [] [] = true
equal (x ∷ xs) (y ∷ ys) = x == y && equal xs ys
equal _ _ = false

unfoldable pub is_empty : Text → Bool
is_empty [] = true
is_empty (c ∷ cs) = false

unfoldable pub starts_with : Text → Text → Bool
starts_with [] s = true
starts_with (p ∷ ps) [] = false
starts_with (p ∷ ps) (c ∷ cs) = p == c && starts_with ps cs

abbrev pub later : Option ℕ → Option ℕ
later none = none
later (some i) = some (suc i)

-- s.find(p): the first position at which `p` stands in `s`.
unfoldable pub find : Text → Text → Option ℕ
unfolding starts_with
find p [] = if starts_with p [] then some 0 else none
find p (c ∷ cs) = if starts_with p (c ∷ cs) then some 0 else later (find p cs)

-- s.find(p) != npos
unfoldable pub contains : Text → Text → Bool
unfolding find
contains p s = elim (find p s) [ none ↦ false | some i ↦ true ]

unfoldable pub mem_char : ℕ → Text → Bool
mem_char c [] = false
mem_char c (d ∷ ds) = c == d || mem_char c ds

-- s.find_first_of(set)
unfoldable pub find_first_of : Text → Text → Option ℕ
unfolding mem_char
find_first_of set [] = none
find_first_of set (c ∷ cs) = if mem_char c set then some 0 else later (find_first_of set cs)

-- s.find_last_of(set)
unfoldable pub find_last_of : Text → Text → Option ℕ
unfolding mem_char
find_last_of set [] = none
find_last_of set (c ∷ cs) = elim (find_last_of set cs) [
  | none ↦ if mem_char c set then some 0 else none
  | some i ↦ some (suc i)
]

pub equal_iff : (a b : Text) → (equal a b ≡ true) ↔ (a ≡ b)
unfolding equal
equal_iff (x ∷ a) (y ∷ b) = ground (arith, equal_iff a b)
equal_iff _ _ = ground arith
