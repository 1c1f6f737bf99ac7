-- ===== src/Imf/Levels.antt =====
-- How deep the parts of a mail can stand within each other: each part is shorter than the mail.
use mathlib.Core.Path.{subst}
use tianya.Prelude.{
  ℕ, zero, suc, ◌+◌, ◌*◌, ◌≤◌, ◌<◌, ◌≡◌, ◌≢◌, refl, ap, ◌-◌, true, ◌||◌, not, Option, none, some,
  List, [], ◌∷◌, ◌++◌, arith, length, length-append, All, inl, inr, Bool-cases,
}
use tianya.Text.{Text, codes, equal, equal_iff, is_empty}
use tianya.Boost.{Boost, capture}
use tianya.Imf.{InternetMailFormat, Header, Base64}
use tianya.Imf.Inline.{Outcome, deep}
use tianya.Imf.Read.{
  lines_from, lines_of, put_line, is_folding, body_text, read_header, decode_body, is_start, is_end,
  collect_parts, find_parts, read_parts, decode_multipart, after_header, first_line, rest_lines,
  imf_read_stream, touch_field, header_value, multipart_pattern,
}
use tianya.Imf.Gives.{Gives, bind-Gives, if-Gives, option-Gives, put_line-Gives}

-- The documented behaviour of trimming and of base64: no text gets longer.
pub record SizeLaws (b : Boost) (e : Base64) : Type 0 where
  pub trim_shrinks : (s : Text) → length (b.trim s) ≤ length s
  pub trim_right_shrinks : (s : Text) → length (b.trim_right s) ≤ length s
  pub decode_shrinks : (s : Text) → length (e.decode s) ≤ length s

-- The length of the text that the lines were read from, and one more.
abbrev pub size : List Text → ℕ
size [] = 0
size (l ∷ ls) = suc (length l) + size ls

size-lines_from : (acc s : Text) → size (lines_from acc s) ≡ suc (length acc + length s)
unfolding lines_from
size-lines_from acc [] = omega arith
size-lines_from acc (c ∷ s) =
    ground (
      arith,
      size-lines_from [] s,
      size-lines_from (acc ++ c ∷ []) s,
      length-append {0} acc (c ∷ []),
    )

size-body_text : (ls : List Text) → length (body_text ls) ≡ size ls
unfolding body_text
size-body_text [] = refl
size-body_text (l ∷ ls) = omega (
  arith,
  size-body_text ls,
  length-append {0} (l ++ codes "\n") (body_text ls),
  length-append {0} l (codes "\n"),
)

-- A body, if there is one, is no longer than a bound.
abbrev pub Fits : ℕ → Header × Option Text → Type 0
Fits n (header, none) = Unit
Fits n (header, some body) = length body ≤ n

module _ (b : Boost) (e : Base64) (laws : SizeLaws b e) where
  read_header-Gives :
      (rounds n : ℕ) (pre : Text) (header : Header) (lines : List Text)
      → suc (size lines) ≤ n
      → Gives (Fits n) (read_header b e rounds pre header lines)
  unfolding read_header
  read_header-Gives rounds n pre header [] h = tt
  read_header-Gives rounds n pre header (raw ∷ lines) h =
      let line = b.trim_right raw in
      let h' : suc (size lines) ≤ n = omega arith in
      if-Gives (Fits n) (is_folding b line) _ _
        (read_header-Gives rounds n (pre ++ b.trim_left line) header lines h')
        (if-Gives (Fits n) (not (is_empty pre)) _ _
          (bind-Gives (λ _. Unit) (Fits n) (put_line b e rounds pre header) _
            (put_line-Gives b e rounds pre header)
            (λ k _. read_header-Gives rounds n line k lines h'))
          (if-Gives (Fits n) (not (is_empty line)) _ _
            (omega (
              arith,
              laws.trim_right_shrinks raw,
              size-body_text lines,
              length-append {0} (line ++ codes "\r\n") (body_text lines),
              length-append {0} line (codes "\r\n"),
            ))
            (read_header-Gives rounds n line header lines h')))

  boundary_length :
      (boundary line : Text)
      → (is_start b boundary line || is_end b boundary line) ≡ true
      → 2 ≤ length line
  boundary_length boundary line h = elim (Bool-cases (is_start b boundary line)) [
    | inl s ↦ omega (
      arith,
      laws.trim_shrinks line,
      ap length ((equal_iff (b.trim line) (codes "--" ++ boundary)).0 s),
    )
    | inr s ↦ omega (
      arith,
      laws.trim_shrinks line,
      ap length (
          (equal_iff (b.trim line) ((codes "--" ++ boundary) ++ codes "--")).0
            (ground (arith, h, s))),
    )
  ]

  abbrev IsShort : ℕ → Text → Type 0
  IsShort n part = length part + 3 ≤ n

  weaken : (m n : ℕ) (ps : List Text) → m ≤ n → All (IsShort m) ps → All (IsShort n) ps
  weaken m n [] h k = tt
  weaken m n (p ∷ ps) h (k, ks) = (omega arith, weaken m n ps h ks)

  collect_parts-IsShort :
      (boundary part : Text) (lines : List Text)
      → All (IsShort (length part + size lines)) (collect_parts b boundary part lines)
  unfolding collect_parts
  collect_parts-IsShort boundary part [] = tt
  collect_parts-IsShort boundary part (l ∷ lines) =
      elim (Bool-cases (is_start b boundary l || is_end b boundary l)) [
        | inl c ↦
            rw (c, collect_parts)
              (
                omega (arith, boundary_length boundary l c),
                weaken (0 + size lines) _ _ (omega arith) (collect_parts-IsShort boundary [] lines),
              )
        | inr c ↦
            rw (c, collect_parts)
              (weaken _ _ _
                (omega (
                  arith,
                  length-append {0} part (l ++ codes "\n"),
                  length-append {0} l (codes "\n"),
                ))
                (collect_parts-IsShort boundary (part ++ (l ++ codes "\n")) lines))
      ]

  find_parts-IsShort :
      (boundary : Text) (lines : List Text) (n : ℕ)
      → size lines ≤ n + 3
      → All (IsShort n) (find_parts b boundary lines)
  unfolding find_parts
  find_parts-IsShort boundary [] n h = tt
  find_parts-IsShort boundary (l ∷ lines) n h = elim (Bool-cases (is_start b boundary l)) [
    | inl c ↦
        rw (c, find_parts)
          (weaken (0 + size lines) n _
            (omega (arith, boundary_length boundary l (ground (arith, c))))
            (collect_parts-IsShort boundary [] lines))
    | inr c ↦ rw (c, find_parts) (find_parts-IsShort boundary lines n (omega arith))
  ]

  read_parts-Gives :
      (read : Text → Outcome InternetMailFormat) (n : ℕ) (ps : List Text)
      → ((s : Text) → length s < n → Gives (λ _. Unit) (read s))
      → All (IsShort (n + 2)) ps
      → Gives (λ _. Unit) (read_parts read ps)
  unfolding read_parts
  read_parts-Gives read n [] r h = tt
  read_parts-Gives read n (p ∷ ps) r (h, hs) =
      bind-Gives (λ _. Unit) (λ _. Unit) (read p) _ (r p (omega arith))
        (λ imf _.
          bind-Gives (λ _. Unit) (λ _. Unit) (read_parts read ps) _
            (read_parts-Gives read n ps r hs) (λ _ _. tt))

  decode_multipart-Gives :
      (read : Text → Outcome InternetMailFormat) (header : Header) (body : Text) (n : ℕ)
      → length body ≤ n + 4
      → ((s : Text) → length s < n → Gives (λ _. Unit) (read s))
      → Gives (λ _. Unit) (decode_multipart b read header body)
  unfolding decode_multipart lines_of
  decode_multipart-Gives read header body n h r =
      option-Gives (λ _. Unit)
        (b.regex_search multipart_pattern (header_value (codes "content-type") header)) _ _ tt
        (λ what _.
          bind-Gives (λ _. Unit) (λ _. Unit)
            (read_parts read (find_parts b (capture what 1) (lines_of body))) _
            (read_parts-Gives read n _ r (
              find_parts-IsShort (capture what 1) (lines_of body) (n + 2)
                (omega (arith, size-lines_from [] body))))
            (λ _ _. tt))

  length-decode_body :
      (header : Header) (body : Text) → length (decode_body b e header body) ≤ length body
  unfolding decode_body
  length-decode_body header body =
      elim (Bool-cases (
        equal (b.to_lower (header_value (codes "content-transfer-encoding") header))
          (codes "base64"))) [
            | inl c ↦ rw (c, decode_body) (laws.decode_shrinks body)
            | inr c ↦ rw (c, decode_body) (omega arith)
          ]

  after_header-Gives :
      (read : Text → Outcome InternetMailFormat) (n : ℕ) (p : Header × Option Text)
      → Fits (n + 4) p
      → ((s : Text) → length s < n → Gives (λ _. Unit) (read s))
      → Gives (λ _. Unit) (after_header b e read p)
  unfolding after_header
  after_header-Gives read n (header, none) h r = tt
  after_header-Gives read n (header, some body) h r =
      let encoded = touch_field (codes "content-transfer-encoding") header in
      decode_multipart-Gives read (touch_field (codes "content-type") encoded)
        (decode_body b e encoded body) n (omega (arith, length-decode_body encoded body)) r

  size-rest_lines : (lines : List Text) (n : ℕ) → size lines ≤ suc n → size (rest_lines lines) ≤ n
  size-rest_lines [] n h = omega arith
  size-rest_lines (l ∷ lines) n h = omega arith

  imf_read_stream-Gives :
      (levels rounds : ℕ) (s : Text)
      → length s < 4 * levels
      → Gives (λ _. Unit) (imf_read_stream b e levels rounds s)
  unfolding imf_read_stream lines_of
  imf_read_stream-Gives zero rounds s h = absurd (omega arith)
  imf_read_stream-Gives (suc levels) rounds s h =
      bind-Gives (Fits (suc (length s))) (λ _. Unit) _ _
        (read_header-Gives rounds (suc (length s)) (first_line (lines_of s)) []
          (rest_lines (lines_of s))
          (omega
            (arith, size-rest_lines (lines_of s) (length s) (omega (arith, size-lines_from [] s)))))
        (λ p f.
          after_header-Gives (imf_read_stream b e levels rounds) (length s - 3) p (widen p f)
            (λ t k. imf_read_stream-Gives levels rounds t (omega arith)))
    where
      widen : (p : Header × Option Text) → Fits (suc (length s)) p → Fits ((length s - 3) + 4) p
      widen (header, none) f = tt
      widen (header, some body) f = omega arith

-- Whatever the mail, a level for each four characters of it and one more is enough: parts do not
-- stand within each other any deeper, so that the reader never fails for want of levels.
pub imf_read_stream_levels :
    (b : Boost) (e : Base64) (levels rounds : ℕ) (s : Text)
    → SizeLaws b e
    → length s < 4 * levels
    → imf_read_stream b e levels rounds s ≢ deep
imf_read_stream_levels b e levels rounds s laws h q =
    subst (Gives (λ _. Unit)) q (imf_read_stream-Gives b e laws levels rounds s h)
