-- ===== src/Util/Tests.antt =====
-- Numbers, ports and the locale's codes at concrete values.
use tianya.Prelude.{
  ◌≡◌, ◌≢◌, refl, ℕ, zero, suc, ◌++◌, length, pos, negsuc, some, none, Option, [], ◌∷◌, arith,
}
use tianya.Text.{Text, codes}
use tianya.Util.{atol, put_int, url_port, to_int}
use tianya.Util.Decimal.{atol-put_int, put_int-url_port}
use tianya.Util.Locale.{Codec, CodecLaws, ansi_wide, wide_ansi, ansi_wide-wide_ansi}

atol_test : atol (codes "  -120 hits") ≡ negsuc 119
unfolding atol
atol_test = refl

to_int_test : to_int (pos 4294967295) ≡ negsuc 0
unfolding to_int
to_int_test = refl

atol-put_int_test : atol (put_int (negsuc 119)) ≡ negsuc 119
atol-put_int_test = atol-put_int (negsuc 119)

put_int-url_port_example :
    (url_port (codes "http") (put_int (pos 8080)) ≡ pos 8080)
    × (put_int (url_port (codes "http") (put_int (pos 8080))) ≡ put_int (pos 8080))
put_int-url_port_example = put_int-url_port (codes "http") 8080 (omega arith)

-- A locale with one byte for each character, in which the null character has the length 0.
abbrev first_byte : Text → Option (ℕ × ℕ)
first_byte [] = none
first_byte (zero ∷ cs) = none
first_byte (suc c ∷ cs) = some (suc c, 1)

abbrev latin : Codec
latin = record { mbtowc = first_byte; wctomb = λ c. some (c ∷ []) }

latin_byte : (c : ℕ) (s : Text) → some (c ∷ []) ≡ some s → s ≡ c ∷ []
latin_byte c s e = cc

latin_back :
    (c : ℕ) (s rest : Text)
    → c ≢ 0
    → some (c ∷ []) ≡ some s
    → first_byte (s ++ rest) ≡ some (c, length s)
latin_back zero s rest n e = absurd (n refl)
latin_back (suc c) s rest n e = rw (latin_byte (suc c) s e) refl

latin-CodecLaws : CodecLaws latin
latin-CodecLaws = record {
  not_nothing = λ c s n e. rw (latin_byte c s e) (omega arith);
  reads_back = latin_back;
}

ansi_wide-wide_ansi_example : ansi_wide latin (wide_ansi latin (codes "ab")) ≡ codes "ab"
ansi_wide-wide_ansi_example = ansi_wide-wide_ansi latin latin-CodecLaws (codes "ab") (
  ((λ z. omega (arith, z)), (b'a' ∷ [], refl)),
  (((λ z. omega (arith, z)), (b'b' ∷ [], refl)), tt),
)
