-- ===== src/Imf/Gives.antt =====
-- What a reader of a mail gives, if it has levels enough; the value of a field takes none.

use tianya.Prelude.{
  ℕ, zero, suc, ◌≡◌, refl, Bool, true, false, Option, none, some, List, if◌then◌else◌,
}
use tianya.Text.{Text, codes, equal}
use tianya.Boost.{Boost, capture}
use tianya.Util.{ansi_utf8}
use tianya.Imf.{Header, Base64}
use tianya.Imf.Inline.{
  Outcome, done, thrown, stuck, deep, ◌>>=◌, decode_word, decode_rounds, imf_base64inline_decode,
  process_line, word_pattern, parts_pattern, line_pattern,
}
use tianya.Imf.Read.{put_line}

-- The value of an outcome meets a predicate; the levels were enough.
abbrev pub Gives {ℓ} : {A : Type ℓ} → (A → Type 0) → Outcome A → Type 0
Gives P (done a) = P a
Gives P thrown = Unit
Gives P stuck = Unit
Gives P deep = ⊥

module _ {ℓ κ} {A : Type ℓ} {B : Type κ} where
  pub bind-Gives :
      (P : A → Type 0) (Q : B → Type 0) (r : Outcome A) (f : A → Outcome B)
      → Gives P r
      → ((a : A) → P a → Gives Q (f a))
      → Gives Q (r >>= f)
  bind-Gives P Q (done a) f h k = k a h
  bind-Gives P Q thrown f h k = tt
  bind-Gives P Q stuck f h k = tt
  bind-Gives P Q deep f h k = h

module _ {ℓ} {A : Type ℓ} (P : A → Type 0) where
  pub if-Gives : (c : Bool) (x y : Outcome A) → Gives P x → Gives P y → Gives P (if c then x else y)
  if-Gives true x y h k = h
  if-Gives false x y h k = k

  pub option-Gives {κ} :
      {B : Type κ} (o : Option B) (x : Outcome A) (f : B → Outcome A)
      → Gives P x
      → ((a : B) → o ≡ some a → Gives P (f a))
      → Gives P (elim o [ none ↦ x | some a ↦ f a ])
  option-Gives none x f h k = h
  option-Gives (some a) x f h k = k a refl

module _ (b : Boost) (e : Base64) where
  decode_word-Gives : (s : Text) (what : List Text) → Gives (λ _. Unit) (decode_word b e s what)
  unfolding decode_word
  decode_word-Gives s what =
      option-Gives (λ _. Unit) (b.regex_search parts_pattern (capture what 1)) _ _ tt
        (λ w _.
          if-Gives (λ _. Unit) (equal (capture w 2) (codes "B")) _ _
            (option-Gives (λ _. Unit) (ansi_utf8 b (e.decode (capture w 3)) (capture w 1)) _ _ tt
              (λ _ _. tt))
            tt)

  decode_rounds-Gives :
      (rounds : ℕ) (pattern s : Text) → Gives (λ _. Unit) (decode_rounds b e rounds pattern s)
  unfolding decode_rounds
  decode_rounds-Gives zero pattern s = tt
  decode_rounds-Gives (suc rounds) pattern s =
      option-Gives (λ _. Unit) (b.regex_search pattern s) _ _ tt
        (λ w _.
          bind-Gives (λ _. Unit) (λ _. Unit) (decode_word b e s w) _ (decode_word-Gives s w)
            (λ t _. decode_rounds-Gives rounds parts_pattern t))

  pub put_line-Gives :
      (rounds : ℕ) (line : Text) (header : Header)
      → Gives (λ _. Unit) (put_line b e rounds line header)
  unfolding put_line process_line imf_base64inline_decode
  put_line-Gives rounds line header =
      bind-Gives (λ _. Unit) (λ _. Unit) (process_line b e rounds line) _
        (option-Gives (λ _. Unit) (b.regex_match line_pattern line) _ _ tt
          (λ w _.
            bind-Gives (λ _. Unit) (λ _. Unit) (decode_rounds b e rounds word_pattern (capture w 2))
              _ (decode_rounds-Gives rounds word_pattern (capture w 2)) (λ _ _. tt)))
        (λ _ _. tt)
