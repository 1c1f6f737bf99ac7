-- ===== src/SendProgress/Whole.antt =====
-- A post that is sent to a Kindle, from its download to the mails that are built.
use tianya.Prelude.{
  ℕ, suc, ◌+◌, ◌≡◌, refl, ◌∙◌, ap, false, List, [], ◌∷◌, ◌++◌, arith, if◌then◌else◌, length, All,
  ◌⊎◌, inl, inr,
}
use tianya.Boost.{Boost}
use tianya.Util.{UrlInfo}
use tianya.TianyaContext.Machine.{Effect, TianyaContext}
use tianya.TianyaContext.Session.{Connection, crawl, complete}
use tianya.TianyaContext.Grows.{Grows, is_complete, IsQuiet}
use tianya.TianyaContext.Complete.{Progress, unfinished, finished, crawl-Progress}
use tianya.SendProgress.{Action, new_progress, act_all}
use tianya.SendProgress.Mails.{StaysOpen, ends, waiting, Settles, act_all-counted}

-- How often the end of the download is among the effects.
abbrev pub ends_in : List Effect → ℕ
ends_in [] = 0
ends_in (e ∷ log) = if is_complete e then suc (ends_in log) else ends_in log

ends_in-append : (xs ys : List Effect) → ends_in (xs ++ ys) ≡ ends_in xs + ends_in ys
ends_in-append [] ys = omega arith
ends_in-append (e ∷ xs) ys = ground (arith, ends_in-append xs ys)

ends_in_quiet : (log : List Effect) → IsQuiet log → ends_in log ≡ 0
ends_in_quiet [] h = refl
ends_in_quiet (e ∷ log) (h, hs) = rw h (ends_in_quiet log hs)

grown_quiet : (t u : TianyaContext) → t.log ≡ [] → Grows t u → ends_in u.log ≡ 0
grown_quiet t u l g =
    ap ends_in (g.log_grows ∙ ap (λ x. x ++ g.new_log) l) ∙ ends_in_quiet g.new_log g.quiet

-- A download ends at most once.
ends_in-crawl :
    (t u : TianyaContext) → t.log ≡ [] → Progress t u → (ends_in u.log ≡ 0) ⊎ (ends_in u.log ≡ 1)
unfolding complete
ends_in-crawl t u l (unfinished g) = inl (grown_quiet t u l g)
ends_in-crawl t u l (finished v g e) =
    inr (ap (λ x. ends_in x.log) e ∙ ends_in-append v.log _ ∙ ap (λ n. n + 1) (grown_quiet t v l g))

only :
    (final : TianyaContext) (cs : List TianyaContext)
    → All (λ c. c ≡ final) cs
    → length cs ≡ 1
    → cs ≡ final ∷ []
only final [] h n = absurd (omega arith)
only final (c ∷ []) (h, hs) n = ap (λ x. x ∷ []) h
only final (c ∷ d ∷ cs) h n = absurd (omega arith)

no_mail : (cs : List TianyaContext) → length cs ≡ 0 → cs ≡ []
no_mail [] n = refl
no_mail (c ∷ cs) n = absurd (omega arith)

-- While the window stays open, in whatever order the two threads take their turns: once the worker's
-- thread has signalled the end of a download of pages as often as the download does, and no end
-- waits, no mail has been built if the download has not come to its end, and exactly one if it has,
-- which has everything that was downloaded.
pub act_all-mails :
    (b : Boost) (ui : UrlInfo) (cs : List Connection) (t : TianyaContext) (actions : List Action)
    → t.log ≡ []
    → All StaysOpen actions
    → Settles (crawl b ui cs t) false actions
    → ends actions ≡ ends_in (crawl b ui cs t).log
    → waiting (act_all actions new_progress).download.queue ≡ 0
    → ((ends_in (crawl b ui cs t).log ≡ 0) × ((act_all actions new_progress).mails ≡ []))
      ⊎ ((ends_in (crawl b ui cs t).log ≡ 1)
          × ((act_all actions new_progress).mails ≡ crawl b ui cs t ∷ []))
unfolding new_progress waiting
act_all-mails b ui cs t actions l o k e w =
    let final = crawl b ui cs t in
    let (whole, n) = act_all-counted final false actions new_progress o k (record {
      here = refl;
      listening = refl;
      delivered = refl;
      whole = tt;
      not_yet = λ _. refl;
    }) in
    elim (ends_in-crawl t final l (crawl-Progress b ui cs t)) [
      | inl z ↦ inl (z, no_mail (act_all actions new_progress).mails (omega (arith, n, w, e, z)))
      | inr z ↦
          inr (z, only final (act_all actions new_progress).mails whole (omega (arith, n, w, e, z)))
    ]
