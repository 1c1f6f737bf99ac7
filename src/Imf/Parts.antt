-- ===== src/Imf/Parts.antt =====
-- A body in parts: which texts mime_read_stream takes for the parts, and the mail that comes of it.
use mathlib.Core.List.{append_assoc, append-nil}
use tianya.Prelude.{
  ◌≡◌, refl, sym, ◌∙◌, ap, true, false, ◌||◌, none, some, List, [], ◌∷◌, ◌++◌, ◌==◌, map, All,
  All-append,
}
use tianya.Text.{Text, codes, equal}
use tianya.Boost.{Boost, capture}
use tianya.Imf.{InternetMailFormat, internet_mail_format, Header, parts}
use tianya.Imf.Inline.{Outcome, done, ◌>>=◌}
use tianya.Imf.Read.{
  lines_from, lines_of, header_value, body_text, multipart_pattern, is_start, is_end, collect_parts,
  find_parts, read_parts, decode_multipart,
}

-- The text has no line break in it.
abbrev pub IsLine : Text → Type 0
IsLine s = All (λ c. (c == b'\n') ≡ false) s

-- A part: its lines, and the boundary behind them.
pub record Section : Type 0 where
  pub lines : List Text
  pub boundary : Text

abbrev pub section_lines : List Section → List Text → List Text
section_lines [] epilogue = epilogue
section_lines (s ∷ ss) epilogue = s.lines ++ s.boundary ∷ section_lines ss epilogue

abbrev pub part_of : Section → Text
part_of s = body_text s.lines

lines_from_line :
    (acc s t : Text)
    → IsLine s
    → lines_from acc ((s ++ codes "\n") ++ t) ≡ (acc ++ s) ∷ lines_from [] t
unfolding lines_from
lines_from_line acc [] t h = ap (λ a. a ∷ lines_from [] t) (sym (append-nil acc))
lines_from_line acc (c ∷ s) t (h, hs) =
    rw (h, lines_from)
      (lines_from_line (acc ++ c ∷ []) s t hs
        ∙ ap (λ a. a ∷ lines_from [] t) (append_assoc acc (c ∷ []) s))

lines_of-body_text : (ls : List Text) → All IsLine ls → lines_of (body_text ls) ≡ ls ++ [] ∷ []
unfolding lines_of lines_from body_text
lines_of-body_text [] h = refl
lines_of-body_text (l ∷ ls) (h, hs) =
    lines_from_line [] l (body_text ls) h ∙ ap (λ r. l ∷ r) (lines_of-body_text ls hs)

module _ (b : Boost) (boundary : Text) where
  abbrev pub IsInner : Text → Type 0
  IsInner line = (is_start b boundary line || is_end b boundary line) ≡ false

  -- No line of the part is a boundary, and the line behind it is one.
  abbrev pub IsSection : Section → Type 0
  IsSection s =
      All IsInner s.lines
      × ((is_start b boundary s.boundary || is_end b boundary s.boundary) ≡ true)

  abbrev pub IsPreamble : List Text → Type 0
  IsPreamble ls = All (λ line. is_start b boundary line ≡ false) ls

  collect_part :
      (part : Text) (ls : List Text) (bound : Text) (rest : List Text)
      → All IsInner ls
      → (is_start b boundary bound || is_end b boundary bound) ≡ true
      → collect_parts b boundary part (ls ++ bound ∷ rest)
        ≡ (part ++ body_text ls) ∷ collect_parts b boundary [] rest
  unfolding collect_parts body_text
  collect_part part [] bound rest h e =
      rw (e, collect_parts) (ap (λ p. p ∷ collect_parts b boundary [] rest) (sym (append-nil part)))
  collect_part part (l ∷ ls) bound rest (h, hs) e =
      rw (h, collect_parts)
        (collect_part (part ++ (l ++ codes "\n")) ls bound rest hs e
          ∙ ap (λ p. p ∷ collect_parts b boundary [] rest)
              (append_assoc part (l ++ codes "\n") (body_text ls)))

  collect_none :
      (part : Text) (ls : List Text) → All IsInner ls → collect_parts b boundary part ls ≡ []
  unfolding collect_parts
  collect_none part [] h = refl
  collect_none part (l ∷ ls) (h, hs) =
      rw (h, collect_parts) (collect_none (part ++ (l ++ codes "\n")) ls hs)

  collect_sections :
      (ss : List Section) (epilogue : List Text)
      → All IsSection ss
      → All IsInner epilogue
      → collect_parts b boundary [] (section_lines ss epilogue) ≡ map part_of ss
  collect_sections [] epilogue h e = collect_none [] epilogue e
  collect_sections (s ∷ ss) epilogue ((i, c), hs) e =
      collect_part [] s.lines s.boundary (section_lines ss epilogue) i c
      ∙ ap (λ r. part_of s ∷ r) (collect_sections ss epilogue hs e)

  find_sections :
      (preamble : List Text) (opening : Text) (ss : List Section) (epilogue : List Text)
      → IsPreamble preamble
      → is_start b boundary opening ≡ true
      → All IsSection ss
      → All IsInner epilogue
      → find_parts b boundary (preamble ++ opening ∷ section_lines ss epilogue) ≡ map part_of ss
  unfolding find_parts
  find_sections [] opening ss epilogue p o h e =
      rw (o, find_parts) (collect_sections ss epilogue h e)
  find_sections (l ∷ ls) opening ss epilogue (p, ps) o h e =
      rw (p, find_parts) (find_sections ls opening ss epilogue ps o h e)

  append-section_lines :
      (ss : List Section) (epilogue more : List Text)
      → section_lines ss epilogue ++ more ≡ section_lines ss (epilogue ++ more)
  append-section_lines [] epilogue more = refl
  append-section_lines (s ∷ ss) epilogue more =
      append_assoc s.lines (s.boundary ∷ section_lines ss epilogue) more
      ∙ ap (λ r. s.lines ++ s.boundary ∷ r) (append-section_lines ss epilogue more)

  empty-IsInner : b.trim [] ≡ [] → IsInner []
  unfolding equal
  empty-IsInner t = rw t refl

-- A body whose type is multipart is cut at its boundaries: what stands before the first boundary and
-- behind the last is left out, and each text between two boundaries is read, in order, as a mail of
-- its own. The mail has these mails for its body, or fails as the first of them that fails does.
pub decode_multipart-body_text :
    (b : Boost) (read : Text → Outcome InternetMailFormat) (header : Header) (what : List Text)
    (preamble : List Text) (opening : Text) (ss : List Section) (epilogue : List Text)
    → b.regex_search multipart_pattern (header_value (codes "content-type") header) ≡ some what
    → b.trim [] ≡ []
    → All IsLine (preamble ++ opening ∷ section_lines ss epilogue)
    → IsPreamble b (capture what 1) preamble
    → is_start b (capture what 1) opening ≡ true
    → All (IsSection b (capture what 1)) ss
    → All (IsInner b (capture what 1)) epilogue
    → decode_multipart b read header (body_text (preamble ++ opening ∷ section_lines ss epilogue))
      ≡ (read_parts read (map part_of ss) >>= λ mime.
          done (internet_mail_format header true (parts mime) none))
unfolding decode_multipart
decode_multipart-body_text b read header what preamble opening ss epilogue f t n p o h e =
    let bound = capture what 1 in
    let lines = preamble ++ opening ∷ section_lines ss epilogue in
    let cut : find_parts b bound (lines_of (body_text lines)) ≡ map part_of ss =
      ap (find_parts b bound) (
        lines_of-body_text lines n
        ∙ append_assoc preamble (opening ∷ section_lines ss epilogue) ([] ∷ [])
        ∙ ap (λ r. preamble ++ opening ∷ r) (append-section_lines b bound ss epilogue ([] ∷ [])))
      ∙ find_sections b bound preamble opening ss (epilogue ++ [] ∷ []) p o h
          (All-append (IsInner b bound) epilogue ([] ∷ []) e (empty-IsInner b bound t, tt)) in
    rw (f, decode_multipart)
      (ap
        (λ ps.
          read_parts read ps >>= λ mime. done (internet_mail_format header true (parts mime) none))
        cut)
