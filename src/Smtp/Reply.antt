-- ===== src/Smtp/Reply.antt =====
-- What check_smtp_response makes of an answer of several lines.
use mathlib.Core.List.{append-nil, append_assoc}
use tianya.Prelude.{ℕ, ◌≡◌, refl, sym, ◌∙◌, ap, false, none, some, List, [], ◌∷◌, ◌++◌, ◌==◌, All}
use tianya.Text.{Text}
use tianya.Boost.{Boost}
use tianya.Smtp.{
  protocol_error, Checked, final, more, wrong, read_line, after_line, check_lines,
  check_smtp_response,
}

-- A line with no line feed in it.
abbrev pub IsLine : Text → Type 0
IsLine line = All (λ c. (c == b'\n') ≡ false) line

-- Lines, each with its line feed, in front of a text.
abbrev pub lines_before : List (Text × Text) → Text → Text
lines_before [] s = s
lines_before ((line, cap) ∷ rows) s = line ++ b'\n' ∷ lines_before rows s

-- A line that says that more follows, and the text that it hands on.
abbrev pub IsMore : Boost → ℕ → Text × Text → Type 0
IsMore b code row = IsLine row.0 × (read_line b code (b.trim_right row.0) ≡ more row.1)

abbrev pub caps_of : List (Text × Text) → List Text
caps_of [] = []
caps_of ((line, cap) ∷ rows) = cap ∷ caps_of rows

-- The loop at the start of a line.
abbrev next_line : Boost → ℕ → Text → List Text → Checked
next_line b code s caps = check_lines b code caps [] s

-- What the loop makes of one line.
abbrev one_line : Boost → ℕ → List Text → Text → Text → Checked
one_line b code caps cs line =
    after_line (next_line b code cs) caps cs (read_line b code (b.trim_right line))

check_lines_line :
    (b : Boost) (code : ℕ) (caps : List Text) (acc line cs : Text)
    → IsLine line
    → check_lines b code caps acc (line ++ b'\n' ∷ cs) ≡ one_line b code caps cs (acc ++ line)
unfolding check_lines
check_lines_line b code caps acc [] cs h = ap (one_line b code caps cs) (sym (append-nil acc))
check_lines_line b code caps acc (c ∷ line) cs (h, hs) =
    rw (h, check_lines)
      (check_lines_line b code caps (acc ++ c ∷ []) line cs hs
        ∙ ap (one_line b code caps cs) (append_assoc acc (c ∷ []) line))

check_lines_rows :
    (b : Boost) (code : ℕ) (caps : List Text) (rows : List (Text × Text)) (s : Text)
    → All (IsMore b code) rows
    → check_lines b code caps [] (lines_before rows s)
      ≡ check_lines b code (caps ++ caps_of rows) [] s
unfolding after_line
check_lines_rows b code caps [] s h = rw (append-nil caps) refl
check_lines_rows b code caps ((line, cap) ∷ rows) s ((free, m), hs) =
    check_lines_line b code caps [] line (lines_before rows s) free
    ∙ ap (after_line (next_line b code (lines_before rows s)) caps (lines_before rows s)) m
    ∙ check_lines_rows b code (caps ++ cap ∷ []) rows s hs
    ∙ ap (λ l. check_lines b code l [] s) (append_assoc caps (cap ∷ []) (caps_of rows))

-- An answer of lines "code-text" and a last line "code text" is accepted: the callback has the text of
-- every line in order, and what follows the answer stays in the buffer.
pub check_smtp_response_accepts :
    (b : Boost) (code : ℕ) (rows : List (Text × Text)) (last cap rest : Text)
    → All (IsMore b code) rows
    → IsLine last
    → read_line b code (b.trim_right last) ≡ final cap
    → check_smtp_response b code (lines_before rows (last ++ b'\n' ∷ rest))
      ≡ record { ec = none; rest = rest; caps = caps_of rows ++ cap ∷ [] }
unfolding check_smtp_response after_line
check_smtp_response_accepts b code rows last cap rest h free f =
    check_lines_rows b code [] rows (last ++ b'\n' ∷ rest) h
    ∙ check_lines_line b code (caps_of rows) [] last rest free
    ∙ ap (after_line (next_line b code rest) (caps_of rows) rest) f

-- An answer that goes on with a line of another code is a protocol error: the lines before that one
-- have been handed to the callback, and what follows it stays in the buffer.
pub check_smtp_response_refuses :
    (b : Boost) (code : ℕ) (rows : List (Text × Text)) (last rest : Text)
    → All (IsMore b code) rows
    → IsLine last
    → read_line b code (b.trim_right last) ≡ wrong
    → check_smtp_response b code (lines_before rows (last ++ b'\n' ∷ rest))
      ≡ record { ec = some protocol_error; rest = rest; caps = caps_of rows }
unfolding check_smtp_response after_line
check_smtp_response_refuses b code rows last rest h free f =
    check_lines_rows b code [] rows (last ++ b'\n' ∷ rest) h
    ∙ check_lines_line b code (caps_of rows) [] last rest free
    ∙ ap (after_line (next_line b code rest) (caps_of rows) rest) f
