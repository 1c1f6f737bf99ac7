-- ===== src/Sample.antt =====
-- A stand-in for Boost that the tests run on: ASCII blanks, no change of character set, and the few
-- patterns of the program as plain searches.
use tianya.Prelude.{
  ◌+◌, ◌≤◌, ◌<◌, ◌≡◌, refl, Bool, true, false, Option, none, some, List, [], ◌∷◌, ◌++◌, arith, inl,
  inr, Bool-cases, if◌then◌else◌, length, drop, length-drop, not, ◌&&◌,
}
use mathlib.Core.List.{reverse, reverse_aux}
use tianya.Text.{Text, codes, equal, contains, starts_with, mem_char}
use tianya.Text.Find.{IsFree}
use tianya.Boost.{Boost}
use tianya.Util.{is_blank}
use tianya.Html.{tag_pattern, first_quoted}
use tianya.Html.Tags.{TagLaws}

abbrev trim_start : Text → Text
trim_start [] = []
trim_start (c ∷ cs) = if is_blank c then trim_start cs else c ∷ cs

abbrev trim_end : Text → Text
trim_end s = reverse (trim_start (reverse s))

-- The text with another in place of the first occurrence of a part.
abbrev replace_one : Text → Text → Text → Text
replace_one [] part new = []
replace_one (c ∷ cs) part new =
    if starts_with part (c ∷ cs)
    then new ++ drop (length part) (c ∷ cs)
    else c ∷ replace_one cs part new

abbrev font : Text
font = codes "<font>"

-- Font tags are found, and a pattern with a quote takes the first quoted text of the subject.
abbrev search : Text → Text → Option (List Text)
search pattern s =
    if equal pattern tag_pattern
    then (if contains font s then some (font ∷ []) else none)
    else elim (first_quoted s) [ none ↦ none | some inner ↦ some (s ∷ inner ∷ []) ]

abbrev pub plain : Boost
plain = record {
  trim = λ s. trim_end (trim_start s);
  trim_right = trim_end;
  trim_left = trim_start;
  trim_any_of = λ set s. s;
  is_space = is_blank;
  to_lower = λ s. s;
  replace_all = replace_one;
  split_any_of = λ set s. s ∷ [];
  regex_search = search;
  regex_match = λ pattern s. none;
  utf8_to_wide = λ s. s;
  wide_to_utf8 = λ s. s;
  between = λ s to from. some s;
}

replace_one_shrinks :
    (line part : Text)
    → contains part line ≡ true
    → 1 ≤ length part
    → length (replace_one line part []) < length line
unfolding contains
replace_one_shrinks [] [] h n = absurd (omega arith)
replace_one_shrinks [] (d ∷ ds) h n = cc
replace_one_shrinks (c ∷ cs) part h n = elim (Bool-cases (starts_with part (c ∷ cs))) [
  | inl e ↦ rw e (omega (arith, length-drop {0} (length part) (c ∷ cs)))
  | inr e ↦ rw e (omega (arith, replace_one_shrinks cs part (ground arith) n))
]

found :
    (c : Bool) (what : List Text)
    → (if c then some (font ∷ []) else none) ≡ some what
    → (c ≡ true) × (what ≡ font ∷ [])
found true what h = (refl, cc)
found false what h = cc

search_tag :
    (line : Text) (what : List Text)
    → plain.regex_search tag_pattern line ≡ some what
    → (contains font line ≡ true) × (what ≡ font ∷ [])
unfolding equal
search_tag line what e = found (contains font line) what e

pub plain-TagLaws : TagLaws plain
plain-TagLaws = record {
  match_occurs = λ line what e. let (c, w) = search_tag line what e in rw w c;
  match_is_tag = λ line what e. rw ((search_tag line what e).1) (omega arith);
  erase_shrinks = replace_one_shrinks;
}

abbrev pub is_free : Text → Text → Bool
is_free set [] = true
is_free set (c ∷ cs) = not (mem_char c set) && is_free set cs

-- A text is free of a set's characters if a run over it finds none.
pub free : (set s : Text) → is_free set s ≡ true → IsFree set s
free set [] h = tt
free set (c ∷ cs) h = (ground arith, free set cs (ground arith))

length-reverse_aux : (xs ys : Text) → length (reverse_aux xs ys) ≡ length xs + length ys
length-reverse_aux [] ys = omega arith
length-reverse_aux (x ∷ xs) ys = omega (arith, length-reverse_aux xs (x ∷ ys))

trim_start_shrinks : (s : Text) → length (trim_start s) ≤ length s
trim_start_shrinks [] = omega arith
trim_start_shrinks (c ∷ cs) = ground (arith, trim_start_shrinks cs)

-- Trimming takes characters away.
pub trim_right_shrinks : (s : Text) → length (plain.trim_right s) ≤ length s
trim_right_shrinks s = omega (
  arith,
  length-reverse_aux (trim_start (reverse s)) [],
  trim_start_shrinks (reverse s),
  length-reverse_aux s [],
)

pub trim_shrinks : (s : Text) → length (plain.trim s) ≤ length s
trim_shrinks s = omega (arith, trim_right_shrinks (trim_start s), trim_start_shrinks s)
