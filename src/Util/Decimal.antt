-- ===== src/Util/Decimal.antt =====
-- Reading a number that was printed.
use tianya.Prelude.{
  ℕ, zero, suc, ◌+◌, ◌/◌, ◌%◌, ◌^◌, ◌<◌, ◌≡◌, refl, ℤ, pos, false, [], ◌∷◌, arith, ltb, inl, inr,
  Bool-cases, ◌∙◌, ap, negsuc, negate, ◌≤◌,
}
use tianya.Text.{Text}
use tianya.Util.{atol, read_digits, put_digits, put_int, to_int, url_port, is_digit}

-- Reading digits put in front of a text reads on from the number that was put.
pub read_digits-put_digits :
    (fuel n : ℕ) (rest : Text)
    → n < fuel
    → read_digits 0 (put_digits fuel n rest) ≡ read_digits n rest
unfolding put_digits
read_digits-put_digits zero n rest h = absurd (omega arith)
read_digits-put_digits (suc fuel) n rest h = elim (Bool-cases (ltb n 10)) [
  | inl small ↦ rw small (unfold read_digits in ground arith)
  | inr big ↦ rw big (
      read_digits-put_digits fuel (n / 10) ((b'0' + n % 10) ∷ rest) (ground arith)
      ∙ (unfold read_digits in ground arith))
]

-- A text that begins with a digit.
abbrev pub StartsWithDigit : Text → Type 0
StartsWithDigit [] = ⊥
StartsWithDigit (c ∷ cs) = (b'0' ≤ c) × (c ≤ b'9')

pub put_digits-StartsWithDigit :
    (fuel n : ℕ) (rest : Text) → n < fuel → StartsWithDigit (put_digits fuel n rest)
unfolding put_digits
put_digits-StartsWithDigit zero n rest h = absurd (omega arith)
put_digits-StartsWithDigit (suc fuel) n rest h = elim (Bool-cases (ltb n 10)) [
  | inl small ↦ rw small (ground arith, ground arith)
  | inr big ↦ rw big (put_digits-StartsWithDigit fuel (n / 10) _ (ground arith))
]

atol-StartsWithDigit : (s : Text) → StartsWithDigit s → atol s ≡ pos (read_digits 0 s)
unfolding atol
atol-StartsWithDigit [] h = absurd h
atol-StartsWithDigit (c ∷ cs) h = ground arith

-- A text that begins with no digit, as the rest after a number.
abbrev pub StopsDigits : Text → Type 0
StopsDigits [] = Unit
StopsDigits (c ∷ cs) = is_digit c ≡ false

pub read_digits_stop : (n : ℕ) (rest : Text) → StopsDigits rest → read_digits n rest ≡ n
unfolding read_digits
read_digits_stop n [] h = refl
read_digits_stop n (c ∷ cs) h = rw h

atol-put_digits :
    (fuel n : ℕ) (rest : Text) → n < fuel → StopsDigits rest → atol (put_digits fuel n rest) ≡ pos n
atol-put_digits fuel n rest h stop =
    atol-StartsWithDigit _ (put_digits-StartsWithDigit fuel n rest h)
    ∙ ap pos (read_digits-put_digits fuel n rest h ∙ read_digits_stop n rest stop)

atol_minus : (s : Text) → atol (b'-' ∷ s) ≡ negate (read_digits 0 s)
unfolding atol
atol_minus s = ground arith

-- atol reads back every integer that the stream output prints.
pub atol-put_int : (i : ℤ) → atol (put_int i) ≡ i
unfolding put_int
atol-put_int (pos n) = atol-put_digits (suc n) n [] (omega arith) tt
atol-put_int (negsuc n) =
    atol_minus (put_digits (suc (suc n)) (suc n) [])
    ∙ ap negate (
        read_digits-put_digits (suc (suc n)) (suc n) [] (omega arith)
        ∙ read_digits_stop (suc n) [] tt)

pub to_int_small : (n : ℕ) → n < 2 ^ 31 → to_int (pos n) ≡ pos n
unfolding to_int
to_int_small n h = ground arith

url_port_digits : (protocol s : Text) → StartsWithDigit s → url_port protocol s ≡ to_int (atol s)
unfolding url_port
url_port_digits protocol [] h = absurd h
url_port_digits protocol (c ∷ cs) h = refl

-- A port from 0 up to 2^31 - 1 that an address writes in decimal is the port of the connection, and
-- printing it for the resolver gives the address's text again.
pub put_int-url_port :
    (protocol : Text) (n : ℕ)
    → n < 2 ^ 31
    → (url_port protocol (put_int (pos n)) ≡ pos n)
      × (put_int (url_port protocol (put_int (pos n))) ≡ put_int (pos n))
put_int-url_port protocol n h = (port, ap put_int port)
  where
    digits : StartsWithDigit (put_int (pos n))
    digits = unfold put_int in put_digits-StartsWithDigit (suc n) n [] (omega arith)

    port : url_port protocol (put_int (pos n)) ≡ pos n
    port =
        url_port_digits protocol (put_int (pos n)) digits
        ∙ ap to_int (atol-put_int (pos n))
        ∙ to_int_small n h
