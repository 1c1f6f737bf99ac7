-- ===== src/Imf/Lines.antt =====
-- The length of the lines that checked_newline_append leaves.
use tianya.Prelude.{
  ℕ, zero, suc, ◌+◌, ◌-◌, ◌^◌, ◌≤◌, ◌<◌, ◌≡◌, refl, ◌∙◌, ap, ◌⊎◌, none, some, [], ◌∷◌, ◌++◌, arith,
  inl, inr, Bool-cases, Option-cases, if◌then◌else◌, length,
}
use tianya.Text.{Text, codes, mem_char, find_last_of}
use tianya.Text.Find.{IsFree}
use tianya.Imf.{last_column, checked_newline_append}

abbrev breaks : Text
breaks = codes "\r\n"

-- The length of the last line of a text that continues a line of some length.
unfoldable pub column : ℕ → Text → ℕ
unfolding mem_char
column n [] = n
column n (c ∷ cs) = if mem_char c breaks then column 0 cs else column (suc n) cs

column-append : (n : ℕ) (s t : Text) → column n (s ++ t) ≡ column (column n s) t
unfolding column
column-append n [] t = refl
column-append n (c ∷ s) t = elim (Bool-cases (mem_char c breaks)) [
  | inl e ↦ rw (e, column) (column-append 0 s t)
  | inr e ↦ rw (e, column) (column-append (suc n) s t)
]

column_free : (n : ℕ) (s : Text) → IsFree breaks s → column n s ≡ n + length s
unfolding column
column_free n [] h = omega arith
column_free n (c ∷ s) (h, hs) = rw h (omega (arith, column_free (suc n) s hs))

column_missed : (n : ℕ) (s : Text) → find_last_of breaks s ≡ none → column n s ≡ n + length s
unfolding column find_last_of
column_missed n [] f = omega arith
column_missed n (c ∷ s) f = ground (arith, column_missed 0 s, column_missed (suc n) s)

column_found :
    (n i : ℕ) (s : Text)
    → find_last_of breaks s ≡ some i
    → (column n s + suc i ≡ length s) × (i < length s)
unfolding column find_last_of
column_found n i [] f = ground arith
column_found n i (c ∷ s) f = elim (Option-cases (find_last_of breaks s)) [
  | inl g ↦ ground (arith, column_missed 0 s g)
  | inr (j, g) ↦ ground (arith, column_found 0 j s g, column_found (suc n) j s g)
]

-- The column of the source is one short of the length of the last line, or it has wrapped round.
last_column_lem :
    (to : Text)
    → length to < 2 ^ 64
    → ((last_column to ≡ 2 ^ 64 - 1) × (column 0 to ≡ 0))
      ⊎ ((column 0 to ≤ suc (last_column to)) × (last_column to ≤ length to))
unfolding last_column
last_column_lem to fits = elim (Option-cases (find_last_of breaks to)) [
  | inl f ↦ rw (f, last_column) (ground (arith, column_missed 0 to f))
  | inr (zero, f) ↦ inr (rw (f, last_column) (omega (arith, column_found 0 0 to f)))
  | inr (suc i, f) ↦ rw (f, last_column) (ground (arith, column_found 0 (suc i) to f))
]

column_added : (to add : Text) → IsFree breaks add → column 0 (to ++ add) ≡ column 0 to + length add
column_added to add h = column-append 0 to add ∙ column_free (column 0 to) add h

column_broken :
    (to add : Text) → IsFree breaks add → column 0 ((to ++ codes "\r\n\t") ++ add) ≡ 1 + length add
unfolding column
column_broken to add h =
    column_added (to ++ codes "\r\n\t") add h
    ∙ ap (λ n. n + length add) (column-append 0 to (codes "\r\n\t"))

-- A text of at most 77 characters and with no line break is added so that the last line has at most
-- 78 characters, whatever stood before it: the text fits, or a new line is begun for it.
pub column-checked_newline_append :
    (to add : Text)
    → IsFree breaks add
    → length add ≤ 77
    → length to + length add < 2 ^ 64
    → column 0 (checked_newline_append to add) ≤ 78
unfolding checked_newline_append
column-checked_newline_append to add h small fits =
    ground (arith, column_added to add h, column_broken to add h, last_column_lem to (omega arith))
