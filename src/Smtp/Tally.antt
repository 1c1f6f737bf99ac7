-- ===== src/Smtp/Tally.antt =====
-- What a run has done so far, counted in its log: pauses, connections and reports.
use mathlib.Core.List.{append-nil}
use tianya.Prelude.{
  ℕ, zero, suc, ◌+◌, ◌*◌, ◌≤◌, ◌≡◌, refl, ◌∙◌, ap, Option, none, some, List, [], ◌∷◌, ◌++◌, arith,
}
use mathlib.Core.Path.{subst}
use tianya.Boost.{Boost}
use tianya.Imf.{InternetMailFormat, Base64, mail_data}
use tianya.Smtp.{ErrorCode, Effect, connect, sent, handshake, wait, reported, Smtp}
use tianya.Smtp.Session.{Point, Session, starting, succeeded, failed, broken_off}

-- The pauses, the reports and the number of connections of a run.
unfoldable pub waits : List Effect → List ℕ
waits [] = []
waits (wait n ∷ log) = n ∷ waits log
waits (connect q ∷ log) = waits log
waits (sent c s ∷ log) = waits log
waits (handshake n ∷ log) = waits log
waits (reported r ∷ log) = waits log

unfoldable pub reports : List Effect → List (Option ErrorCode)
reports [] = []
reports (reported r ∷ log) = r ∷ reports log
reports (wait n ∷ log) = reports log
reports (connect q ∷ log) = reports log
reports (sent c s ∷ log) = reports log
reports (handshake n ∷ log) = reports log

unfoldable pub connects : List Effect → ℕ
connects [] = 0
connects (connect q ∷ log) = suc (connects log)
connects (wait n ∷ log) = connects log
connects (sent c s ∷ log) = connects log
connects (handshake n ∷ log) = connects log
connects (reported r ∷ log) = connects log

-- The pauses before n further tries: 30, 40, 50 and so on.
unfoldable pub pauses : ℕ → List ℕ
pauses zero = []
pauses (suc n) = pauses n ++ (suc n * 10 + 20) ∷ []

pub waits-append : (log more : List Effect) → waits (log ++ more) ≡ waits log ++ waits more
unfolding waits
waits-append [] more = refl
waits-append (wait n ∷ log) more = ap (λ l. n ∷ l) (waits-append log more)
waits-append (connect q ∷ log) more = waits-append log more
waits-append (sent c s ∷ log) more = waits-append log more
waits-append (handshake n ∷ log) more = waits-append log more
waits-append (reported r ∷ log) more = waits-append log more

pub reports-append : (log more : List Effect) → reports (log ++ more) ≡ reports log ++ reports more
unfolding reports
reports-append [] more = refl
reports-append (reported r ∷ log) more = ap (λ l. r ∷ l) (reports-append log more)
reports-append (connect q ∷ log) more = reports-append log more
reports-append (sent c s ∷ log) more = reports-append log more
reports-append (handshake n ∷ log) more = reports-append log more
reports-append (wait n ∷ log) more = reports-append log more

pub connects-append :
    (log more : List Effect) → connects (log ++ more) ≡ connects log + connects more
unfolding connects
connects-append [] more = omega arith
connects-append (connect q ∷ log) more = omega (arith, connects-append log more)
connects-append (wait n ∷ log) more = connects-append log more
connects-append (sent c s ∷ log) more = connects-append log more
connects-append (handshake n ∷ log) more = connects-append log more
connects-append (reported r ∷ log) more = connects-append log more

-- The run has had `retries` pauses and `tries` connections and has reported `rs`.
pub record Tally (log : List Effect) (retries tries : ℕ) (rs : List (Option ErrorCode))
    : Type 0 where
  pub paused : waits log ≡ pauses retries
  pub tried : connects log ≡ tries
  pub told : reports log ≡ rs
  pub within : retries ≤ 21

-- Before a try, and in it, with the mail that is to be sent.
abbrev pub Ready : InternetMailFormat → Smtp → Type 0
Ready imf t = Tally t.log t.retry_count t.retry_count [] × (t.imf ≡ imf)

abbrev pub Going : InternetMailFormat → Smtp → Type 0
Going imf t = Tally t.log t.retry_count (suc t.retry_count) [] × (t.imf ≡ imf)

-- The end: success, an error after the last retry, or an exception, which only a mail brings that
-- cannot be written; it ends the run without a report.
abbrev pub Succeeded : Smtp → Type 0
Succeeded t = (k : ℕ) × Tally t.log k (suc k) (none ∷ [])

abbrev pub Failed : Smtp → Type 0
Failed t = (e : ErrorCode) × Tally t.log 21 22 (some e ∷ [])

abbrev pub BrokenOff : Boost → Base64 → InternetMailFormat → Smtp → Type 0
BrokenOff b e imf t = ((k : ℕ) × Tally t.log k (suc k) []) × (mail_data b e imf ≡ none)

abbrev pub At : Boost → Base64 → InternetMailFormat → Point → Smtp → Type 0
At b e imf starting t = Ready imf t
At b e imf succeeded t = Succeeded t
At b e imf failed t = Failed t
At b e imf broken_off t = BrokenOff b e imf t
At b e imf _ t = Going imf t

abbrev pub IsBounded : Boost → Base64 → InternetMailFormat → Session → Type 0
IsBounded b e imf s = At b e imf s.point s.self

-- An effect that is neither a pause nor a connection nor a report.
pub quiet :
    {log : List Effect} {k n : ℕ} {rs : List (Option ErrorCode)} (x : Effect)
    → waits (x ∷ []) ≡ []
    → connects (x ∷ []) ≡ 0
    → reports (x ∷ []) ≡ []
    → Tally log k n rs
    → Tally (log ++ x ∷ []) k n rs
quiet {log} x w c r h = record {
  paused =
      waits-append log (x ∷ []) ∙ ap (λ l. waits log ++ l) w ∙ append-nil (waits log) ∙ h.paused;
  tried = omega (arith, connects-append log (x ∷ []), h.tried);
  told =
      reports-append log (x ∷ [])
      ∙ ap (λ l. reports log ++ l) r
      ∙ append-nil (reports log)
      ∙ h.told;
  within = h.within;
}

pub again :
    {log : List Effect} {k n : ℕ}
    → k ≤ 20
    → Tally log k n []
    → Tally (log ++ wait (suc k * 10 + 20) ∷ []) (suc k) n []
unfolding waits connects reports pauses
again {log} {k} small h = record {
  paused = waits-append log _ ∙ ap (λ l. l ++ (suc k * 10 + 20) ∷ []) h.paused;
  tried = omega (arith, connects-append log (wait (suc k * 10 + 20) ∷ []), h.tried);
  told = reports-append log _ ∙ ap (λ l. l ++ []) h.told;
  within = omega arith;
}

pub telling :
    {log : List Effect} {k n : ℕ} (r : Option ErrorCode)
    → Tally log k n []
    → Tally (log ++ reported r ∷ []) k n (r ∷ [])
unfolding waits connects reports
telling {log} r h = record {
  paused = waits-append log _ ∙ append-nil (waits log) ∙ h.paused;
  tried = omega (arith, connects-append log (reported r ∷ []), h.tried);
  told = reports-append log _ ∙ ap (λ l. l ++ r ∷ []) h.told;
  within = h.within;
}

pub at_limit :
    {log : List Effect} {rs : List (Option ErrorCode)} (k : ℕ)
    → k ≡ 21
    → Tally log k (suc k) rs
    → Tally log 21 22 rs
at_limit {log} {rs} k e h = subst (λ n. Tally log n (suc n) rs) e h
