-- ===== src/Util/Locale.antt =====
-- The conversions of util.hpp that go through the C library's locale, character by character.
use tianya.Prelude.{
  ℕ, zero, suc, ◌≤◌, ◌≡◌, ◌≢◌, refl, Option, none, some, [], ◌∷◌, ◌++◌, ◌∙◌, arith, length, drop,
  length-append, ap,
}
use tianya.Text.{Text}

-- std::mbtowc and std::wctomb of the current locale. `mbtowc` gives the character and the length of
-- its code, `none` for a length below one; `wctomb` the bytes, `none` where there are none.
pub record Codec : Type 0 where
  pub mbtowc : Text → Option (ℕ × ℕ)
  pub wctomb : ℕ → Option Text

-- ansi_wide(source): one character for each round; fuel for every byte is enough.
unfoldable pub ansi_wide_from : Codec → ℕ → Text → Text
ansi_wide_from k zero source = []
ansi_wide_from k (suc fuel) [] = []
ansi_wide_from k (suc fuel) (c ∷ cs) = elim (k.mbtowc (c ∷ cs)) [
  | none ↦ []
  | some (dest, len) ↦ dest ∷ ansi_wide_from k fuel (drop len (c ∷ cs))
]

unfoldable pub ansi_wide : Codec → Text → Text
unfolding ansi_wide_from
ansi_wide k source = ansi_wide_from k (length source) source

-- wide_ansi(source): the codes of the characters up to the first that has none.
unfoldable pub wide_ansi : Codec → Text → Text
wide_ansi k [] = []
wide_ansi k (c ∷ cs) = elim (k.wctomb c) [ none ↦ [] | some s ↦ s ++ wide_ansi k cs ]

-- The documented relation of the two functions in an encoding without shift states: for every
-- character but the null character, what wctomb writes is at least a byte, and mbtowc reads it back
-- whatever follows it. Of the null character nothing is asked: mbtowc gives the length 0 for it.
pub record CodecLaws (k : Codec) : Type 0 where
  pub not_nothing : (c : ℕ) (s : Text) → c ≢ 0 → k.wctomb c ≡ some s → 1 ≤ length s
  pub reads_back :
      (c : ℕ) (s rest : Text)
      → c ≢ 0
      → k.wctomb c ≡ some s
      → k.mbtowc (s ++ rest) ≡ some (c, length s)

-- All characters of the text have a code, and none is the null character.
abbrev pub IsEncodable : Codec → Text → Type 0
IsEncodable k [] = Unit
IsEncodable k (c ∷ cs) = ((c ≢ 0) × ((s : Text) × (k.wctomb c ≡ some s))) × IsEncodable k cs

drop-append : (s rest : Text) → drop (length s) (s ++ rest) ≡ rest
drop-append [] rest = refl
drop-append (c ∷ s) rest = drop-append s rest

ansi_wide_from-append :
    (k : Codec) (fuel c : ℕ) (s rest : Text)
    → 1 ≤ length s
    → k.mbtowc (s ++ rest) ≡ some (c, length s)
    → ansi_wide_from k (suc fuel) (s ++ rest) ≡ c ∷ ansi_wide_from k fuel rest
unfolding ansi_wide_from
ansi_wide_from-append k fuel c [] rest h e = absurd (omega arith)
ansi_wide_from-append k fuel c (d ∷ s) rest h e =
    rw (e, ansi_wide_from) (ap (λ t. c ∷ ansi_wide_from k fuel t) (drop-append s rest))

wide_ansi_cons :
    (k : Codec) (c : ℕ) (cs s : Text)
    → k.wctomb c ≡ some s
    → wide_ansi k (c ∷ cs) ≡ s ++ wide_ansi k cs
unfolding wide_ansi
wide_ansi_cons k c cs s e = rw (e, wide_ansi)

-- A character's code and what follows fit in the fuel, so what follows fits in one round less.
rest_le :
    (k : Codec) (c : ℕ) (cs s : Text) (fuel : ℕ)
    → CodecLaws k
    → c ≢ 0
    → k.wctomb c ≡ some s
    → length (wide_ansi k (c ∷ cs)) ≤ fuel
    → suc (length (wide_ansi k cs)) ≤ fuel
rest_le k c cs s fuel laws n e h = omega (
  arith,
  ap length (wide_ansi_cons k c cs s e),
  length-append {0} s (wide_ansi k cs),
  laws.not_nothing c s n e,
)

ansi_wide_from-wide_ansi :
    (k : Codec)
    → CodecLaws k
    → (w : Text) (fuel : ℕ) → IsEncodable k w
    → length (wide_ansi k w) ≤ fuel
    → ansi_wide_from k fuel (wide_ansi k w) ≡ w
unfolding wide_ansi
ansi_wide_from-wide_ansi k laws [] zero e h = unfold ansi_wide_from in refl
ansi_wide_from-wide_ansi k laws [] (suc fuel) e h = unfold ansi_wide_from in refl
ansi_wide_from-wide_ansi k laws (c ∷ cs) zero ((n, (s, e)), es) h =
    absurd (omega (arith, rest_le k c cs s zero laws n e h))
ansi_wide_from-wide_ansi k laws (c ∷ cs) (suc fuel) ((n, (s, e)), es) h =
    rw (e, wide_ansi)
      (ansi_wide_from-append k fuel c s (wide_ansi k cs) (laws.not_nothing c s n e)
          (laws.reads_back c s (wide_ansi k cs) n e)
        ∙ ap (λ t. c ∷ t)
            (ansi_wide_from-wide_ansi k laws cs fuel es
              (omega (arith, rest_le k c cs s (suc fuel) laws n e h))))

-- In a locale whose encoding has no shift states, a text without null characters, all of whose
-- characters have a code, survives the way to bytes and back: ansi_wide after wide_ansi gives the
-- text.
pub ansi_wide-wide_ansi :
    (k : Codec) → CodecLaws k → (w : Text) → IsEncodable k w → ansi_wide k (wide_ansi k w) ≡ w
unfolding ansi_wide
ansi_wide-wide_ansi k laws w e = ansi_wide_from-wide_ansi k laws w _ e (omega arith)
