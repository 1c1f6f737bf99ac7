-- ===== src/TianyaContext/Count.antt =====
-- The line of a page that tells how many pages a post has.
use tianya.Prelude.{
  ℕ, zero, suc, ◌+◌, ◌<◌, ◌^◌, ◌/◌, ◌%◌, ◌≡◌, refl, ◌∙◌, ap, pos, negsuc, true, false, some, List,
  [], ◌∷◌, ◌++◌, ltb, arith, inl, inr, Bool-cases, if◌then◌else◌,
}
use tianya.Text.{Text, codes, contains, starts_with}
use tianya.Boost.{Boost}
use tianya.Util.{skip_blank, read_signed, read_digits, to_int, put_digits, put_int, get_chareset}
use tianya.Util.Decimal.{
  StartsWithDigit, StopsDigits, read_digits-put_digits, put_digits-StartsWithDigit,
  read_digits_stop, to_int_small,
}
use tianya.Http.{Line, Reads}
use tianya.TianyaContext.Machine.{
  state_unkown, Page, Scan, stays, author_meta, scan_content, scan_int, scan_colon, scan_page_count,
  scan_count, scan_next, on_unkown, dispatch,
}
use tianya.TianyaContext.Session.{Event, line, read_loop}
use tianya.TianyaContext.Post.{step}
use tianya.TianyaContext.Paging.{scan_author_none, scan_content_none}

put_digits-append :
    (fuel n : ℕ) (s rest : Text) → put_digits fuel n s ++ rest ≡ put_digits fuel n (s ++ rest)
unfolding put_digits
put_digits-append zero n s rest = refl
put_digits-append (suc fuel) n s rest = elim (Bool-cases (ltb n 10)) [
  | inl small ↦ rw small refl
  | inr big ↦ rw big (put_digits-append fuel (n / 10) ((b'0' + n % 10) ∷ s) rest)
]

scan_int_digits :
    (s : Text) → StartsWithDigit s → scan_int s ≡ some (to_int (pos (read_digits 0 s)))
unfolding scan_int read_signed
scan_int_digits [] h = absurd h
scan_int_digits (c ∷ []) h = ground arith
scan_int_digits (c ∷ d ∷ s) h = ground arith

skip_blank_digits : (s : Text) → StartsWithDigit s → skip_blank s ≡ s
unfolding skip_blank
skip_blank_digits [] h = absurd h
skip_blank_digits (c ∷ s) h = ground arith

-- What the page writes: the name, a colon and the number.
abbrev pub count_text : ℕ → Text → Text
count_text n rest = codes "pageCount : " ++ (put_int (pos n) ++ rest)

scan_page_count-count_text :
    (n : ℕ) (rest : Text)
    → n < 2 ^ 31
    → StopsDigits rest
    → scan_page_count (count_text n rest) ≡ some (pos n)
unfolding scan_page_count scan_colon starts_with put_int skip_blank
scan_page_count-count_text n rest h stop =
    let digits = put_digits-StartsWithDigit (suc n) n rest (omega arith) in
    ap (λ s. scan_int (skip_blank s)) (put_digits-append (suc n) n [] rest)
    ∙ ap scan_int (skip_blank_digits (put_digits (suc n) n rest) digits)
    ∙ scan_int_digits (put_digits (suc n) n rest) digits
    ∙ ap (λ k. some (to_int (pos k)))
        (read_digits-put_digits (suc n) n rest (omega arith) ∙ read_digits_stop n rest stop)
    ∙ ap some (to_int_small n h)

-- A line that tells the count, and nothing else that the reader looks for.
pub record TellsCount (b : Boost) (n : ℕ) (html : Text) : Type 0 where
  pub rest : Text
  pub stops : StopsDigits rest
  pub trimmed : b.trim html ≡ count_text n rest
  pub tells : contains (codes "pageCount :") html ≡ true
  pub no_chareset : contains (codes "meta charset=") html ≡ false
  pub no_author : contains author_meta html ≡ false
  pub no_content : contains (codes "<div class=\"bbs-content") html ≡ false
  pub no_link : contains (codes "下页") (b.trim html) ≡ false

-- The page with the count.
abbrev pub counted : Page → ℕ → Page
counted p n = record p { self = record (p.self) { page_count = pos n } }

scan_count_found :
    (b : Boost) (c : Scan) (n : ℕ)
    → n < 2 ^ 31
    → TellsCount b n c.html
    → c.self.page_count ≡ negsuc 0
    → scan_count b c
      ≡ record { html = b.trim c.html; self = record (c.self) { page_count = pos n } }
unfolding scan_count
scan_count_found b c n h k e =
    let found : scan_page_count (b.trim c.html) ≡ some (pos n) =
      ap scan_page_count k.trimmed ∙ scan_page_count-count_text n k.rest h k.stops in
    rw (k.tells) (rw found (rw e refl))

on_unkown_count :
    (b : Boost) (l : Line) (p : Page) (n : ℕ)
    → n < 2 ^ 31
    → TellsCount b n l.html
    → p.self.page_count ≡ negsuc 0
    → on_unkown b l.raw l.html p ≡ stays (counted p n)
unfolding on_unkown scan_next
on_unkown_count b l p n h k e =
    let c : Scan = record { html = l.html; self = p.self } in
    let ch = if contains (codes "meta charset=") l.html then get_chareset b l.raw else p.chareset in
    let same : ch ≡ p.chareset = rw (k.no_chareset) refl in
    ap (λ x. scan_next b ch (scan_count b (scan_content x))) (scan_author_none b c k.no_author)
    ∙ ap (λ x. scan_next b ch (scan_count b x)) (scan_content_none c k.no_content)
    ∙ ap (scan_next b ch) (scan_count_found b c n h k e)
    ∙ rw (k.no_link) (ap (λ x. stays (record (counted p n) { chareset = x })) same)

-- Between two posts of a page that has not told its number of pages, a line with the number in
-- decimal, from 0 up to 2^31 - 1, sets the count to exactly that number, whatever stands behind it
-- other than a digit, and changes nothing else.
pub read_loop-count_text :
    (b : Boost) (p : Page) (l : Line) (n : ℕ) (events : List Event)
    → n < 2 ^ 31
    → p.self.state ≡ state_unkown
    → p.self.abort ≡ false
    → p.self.page_count ≡ negsuc 0
    → Reads b p.chareset l
    → TellsCount b n l.html
    → read_loop b p (line l.raw ∷ events) ≡ read_loop b (counted p n) events
read_loop-count_text b p l n events h s a e r k =
    step b p (counted p n) l events r
      (ap (λ x. dispatch b x l.raw l.html p) s ∙ (unfold dispatch in on_unkown_count b l p n h k e))
      a
