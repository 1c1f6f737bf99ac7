-- ===== src/Text/Find.antt =====
-- What the searches return: a position inside the string, the first or the last of its kind.
use tianya.Prelude.{
  ℕ, suc, ◌≡◌, refl, ap, true, false, none, some, [], ◌∷◌, ◌++◌, arith, take, drop, length, All,
}
use tianya.Text.{Text, mem_char, find_first_of, find_last_of, starts_with, contains}

-- A text with no character of the set.
abbrev pub IsFree : Text → Text → Type 0
IsFree set s = All (λ c. mem_char c set ≡ false) s

-- The search stops at the first character of the set.
pub find_first_of-append :
    (set before : Text) (c : ℕ) (rest : Text)
    → IsFree set before
    → mem_char c set ≡ true
    → find_first_of set (before ++ c ∷ rest) ≡ some (length before)
unfolding find_first_of
find_first_of-append set [] c rest h m = ground arith
find_first_of-append set (b ∷ before) c rest (h, hs) m =
    ground (arith, find_first_of-append set before c rest hs m)

pub find_last_of_free : (set s : Text) → IsFree set s → find_last_of set s ≡ none
unfolding find_last_of
find_last_of_free set [] h = refl
find_last_of_free set (c ∷ cs) (h, hs) = ground (arith, find_last_of_free set cs hs)

-- The backward search stops at the last character of the set.
pub find_last_of-append :
    (set before : Text) (c : ℕ) (rest : Text)
    → mem_char c set ≡ true
    → IsFree set rest
    → find_last_of set (before ++ c ∷ rest) ≡ some (length before)
unfolding find_last_of
find_last_of-append set [] c rest m h = ground (arith, find_last_of_free set rest h)
find_last_of-append set (b ∷ before) c rest m h =
    ground (arith, find_last_of-append set before c rest m h)

pub take-length : (before rest : Text) → take (length before) (before ++ rest) ≡ before
take-length [] rest = refl
take-length (b ∷ before) rest = ap (λ t. b ∷ t) (take-length before rest)

pub drop-length :
    (before : Text) (c : ℕ) (rest : Text) → drop (suc (length before)) (before ++ c ∷ rest) ≡ rest
drop-length [] c rest = refl
drop-length (b ∷ before) c rest = drop-length before c rest

starts_with-append : (p q s : Text) → starts_with (p ++ q) s ≡ true → starts_with p s ≡ true
unfolding starts_with
starts_with-append [] q s h = refl
starts_with-append (c ∷ p) q [] h = h
starts_with-append (c ∷ p) q (d ∷ s) h = ground (arith, starts_with-append p q s)

-- A text that contains a string contains what the string begins with.
pub contains_prefix : (p q s : Text) → contains (p ++ q) s ≡ true → contains p s ≡ true
unfolding contains
contains_prefix p q [] h = ground (arith, starts_with-append p q [])
contains_prefix p q (c ∷ s) h =
    ground (arith, starts_with-append p q (c ∷ s), contains_prefix p q s)
