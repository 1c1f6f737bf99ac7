-- ===== src/NovelViewer/Shows.antt =====
-- What the window of a post shows, and what waits, after any actions.
use mathlib.Core.List.{append-nil, append_assoc}
use mathlib.Core.Path.{subst}
use tianya.Prelude.{
  ◌≡◌, refl, sym, ◌∙◌, ap, Bool, true, false, List, [], ◌∷◌, ◌++◌, All, if◌then◌else◌,
}
use tianya.Text.{Text}
use tianya.TianyaDownload.{
  TianyaDownload, Effect, chunk_download_notify, download_progress_report, start_timer,
  download_complete, mailsend_progress_report, send_complete, start_send_mail, emit, handle,
}
use tianya.TianyaDownload.Order.{
  shown, queued, signalled, IsNotEnd, IsThere, Step, handle-Step, emitted,
}
use tianya.NovelViewer.{
  NovelViewer, Action, from_download, find_triggered, slash_pressed, esc_pressed, edited,
  mail_triggered, bar_timeout, mail_bar_timeout, on_effect, on_effects, deliver, mail_to,
  showfind_widget, hidefind_widget, find_text, act, act_all, new_viewer,
}

-- The chunks that the worker's thread signals during the actions.
unfoldable pub signalled_by : List Action → List Text
unfolding signalled
signalled_by [] = []
signalled_by (from_download e ∷ actions) = signalled (e ∷ []) ++ signalled_by actions
signalled_by (find_triggered ∷ actions) = signalled_by actions
signalled_by (slash_pressed ∷ actions) = signalled_by actions
signalled_by (esc_pressed ∷ actions) = signalled_by actions
signalled_by (edited s ∷ actions) = signalled_by actions
signalled_by (mail_triggered ∷ actions) = signalled_by actions
signalled_by (bar_timeout ∷ actions) = signalled_by actions
signalled_by (mail_bar_timeout n ∷ actions) = signalled_by actions

-- The window stays open.
abbrev pub StaysOpen : Action → Type 0
StaysOpen (from_download e) = IsNotEnd e
StaysOpen _ = Unit

-- The text of the window, and what waits for its thread.
abbrev pub coming : NovelViewer → List Text
coming v = v.text ++ queued v.download.queue

pub record IsOpen (v : NovelViewer) : Type 0 where
  pub there : IsThere v.download
  pub delivered : v.download.log ≡ []

-- The window after an action: it is open, and it has got the chunks that came.
record After (v u : NovelViewer) (news : List Text) : Type 0 where
  still_open : IsOpen u
  got : coming u ≡ coming v ++ news

on_effect_lem :
    (e : Effect) (v : NovelViewer)
    → ((on_effect e v).text ≡ v.text ++ shown (e ∷ [])) × ((on_effect e v).download ≡ v.download)
unfolding on_effect shown
on_effect_lem (chunk_download_notify s) v = (refl, refl)
on_effect_lem (download_progress_report p) v = (sym (append-nil v.text), refl)
on_effect_lem start_timer v = (sym (append-nil v.text), refl)
on_effect_lem download_complete v = (sym (append-nil v.text), refl)
on_effect_lem (mailsend_progress_report n) v = (sym (append-nil v.text), refl)
on_effect_lem send_complete v = (sym (append-nil v.text), refl)

shown_cons : (e : Effect) (log : List Effect) → shown (e ∷ []) ++ shown log ≡ shown (e ∷ log)
unfolding shown
shown_cons (chunk_download_notify s) log = refl
shown_cons (download_progress_report p) log = refl
shown_cons start_timer log = refl
shown_cons download_complete log = refl
shown_cons (mailsend_progress_report n) log = refl
shown_cons send_complete log = refl

on_effects_lem :
    (log : List Effect) (v : NovelViewer)
    → ((on_effects log v).text ≡ v.text ++ shown log) × ((on_effects log v).download ≡ v.download)
unfolding on_effects shown
on_effects_lem [] v = (sym (append-nil v.text), refl)
on_effects_lem (e ∷ log) v =
    let (t, d) = on_effect_lem e v in
    let (ts, ds) = on_effects_lem log (on_effect e v) in
    (
      ts
          ∙ ap (λ l. l ++ shown log) t
          ∙ append_assoc v.text (shown (e ∷ [])) (shown log)
          ∙ ap (λ l. v.text ++ l) (shown_cons e log),
      ds ∙ d,
    )

deliver-After :
    (v : NovelViewer) (d : TianyaDownload) (news : List Text)
    → IsOpen v
    → Step v.download d news
    → After v (deliver d v) news
unfolding deliver shown
deliver-After v d news o s =
    let w = record v { download = record d { log = [] } } in
    let (t, e) = on_effects_lem d.log w in
    record {
      still_open = record {
        there =
            subst IsThere (sym e) (record { here = s.there.here; listening = s.there.listening });
        delivered = ap (λ x. x.log) e;
      };
      got =
          ap (λ x. (on_effects d.log w).text ++ queued x.queue) e
          ∙ ap (λ l. l ++ queued d.queue) t
          ∙ append_assoc v.text (shown d.log) (queued d.queue)
          ∙ ap (λ l. v.text ++ l)
              (s.grown ∙ ap (λ l. (shown l ++ queued v.download.queue) ++ news) o.delivered)
          ∙ sym (append_assoc v.text (queued v.download.queue) news);
    }

-- Nothing that is shown or waits is touched.
abbrev IsSame : NovelViewer → NovelViewer → Type 0
IsSame v u = (u.text ≡ v.text) × (u.download ≡ v.download)

keeps : (v u : NovelViewer) → IsSame v u → IsOpen v → After v u []
keeps v u (t, d) o = record {
  still_open = record {
    there = subst IsThere (sym d) o.there;
    delivered = ap (λ x. x.log) d ∙ o.delivered;
  };
  got =
      ap (λ l. l ++ queued u.download.queue) t
      ∙ ap (λ x. v.text ++ queued x.queue) d
      ∙ sym (append-nil (coming v));
}

start_send_mail-Step : (d : TianyaDownload) → IsThere d → Step d (start_send_mail d) []
unfolding start_send_mail emit shown
start_send_mail-Step d h = record {
  there = record { here = h.here; listening = h.listening };
  grown = emitted d.log (mailsend_progress_report 50 ∷ []) (queued d.queue);
}

mail_to-After : (v : NovelViewer) → IsOpen v → After v (mail_to v) []
unfolding mail_to
mail_to-After v o =
    let a =
      deliver-After (record v { mail_bars = _ }) (start_send_mail v.download) []
        (record { there = o.there; delivered = o.delivered })
        (start_send_mail-Step v.download o.there) in
    record { still_open = a.still_open; got = a.got }

if-IsSame :
    (c : Bool) (v u w : NovelViewer) → IsSame v u → IsSame v w → IsSame v (if c then u else w)
if-IsSame true v u w h k = h
if-IsSame false v u w h k = k

show-IsSame : (v : NovelViewer) → IsSame v (showfind_widget v)
unfolding showfind_widget
show-IsSame v = if-IsSame v.findwindow v _ _ (refl, refl) (refl, refl)

slash-IsSame : (v : NovelViewer) → IsSame v (act slash_pressed v)
unfolding act
slash-IsSame v = if-IsSame v.temp_shortcut v (showfind_widget v) v (show-IsSame v) (refl, refl)

find-IsSame : (s : Text) (v : NovelViewer) → IsSame v (find_text s v)
unfolding find_text
find-IsSame s v = if-IsSame v.findwindow v _ v (refl, refl) (refl, refl)

act-After :
    (a : Action) (v : NovelViewer)
    → StaysOpen a
    → IsOpen v
    → After v (act a v) (signalled_by (a ∷ []))
unfolding act signalled_by hidefind_widget
act-After (from_download e) v n o =
    subst (λ l. After v (deliver (handle e v.download) v) l) (sym (append-nil (signalled (e ∷ []))))
      (deliver-After v (handle e v.download) (signalled (e ∷ [])) o
        (handle-Step e v.download n o.there))
act-After find_triggered v n o = keeps v _ (show-IsSame v) o
act-After slash_pressed v n o = keeps v _ (slash-IsSame v) o
act-After esc_pressed v n o = keeps v _ (refl, refl) o
act-After (edited s) v n o = keeps v _ (find-IsSame s v) o
act-After mail_triggered v n o = mail_to-After v o
act-After bar_timeout v n o = keeps v _ (refl, refl) o
act-After (mail_bar_timeout k) v n o = keeps v _ (refl, refl) o

signalled_by_cons :
    (a : Action) (actions : List Action)
    → signalled_by (a ∷ []) ++ signalled_by actions ≡ signalled_by (a ∷ actions)
unfolding signalled_by
signalled_by_cons (from_download e) actions =
    ap (λ l. l ++ signalled_by actions) (append-nil (signalled (e ∷ [])))
signalled_by_cons find_triggered actions = refl
signalled_by_cons slash_pressed actions = refl
signalled_by_cons esc_pressed actions = refl
signalled_by_cons (edited s) actions = refl
signalled_by_cons mail_triggered actions = refl
signalled_by_cons bar_timeout actions = refl
signalled_by_cons (mail_bar_timeout n) actions = refl

act_all-coming :
    (actions : List Action) (v : NovelViewer)
    → All StaysOpen actions
    → IsOpen v
    → coming (act_all actions v) ≡ coming v ++ signalled_by actions
unfolding act_all signalled_by
act_all-coming [] v n o = sym (append-nil (coming v))
act_all-coming (a ∷ actions) v (n, ns) o =
    let s = act-After a v n o in
    act_all-coming actions (act a v) ns s.still_open
    ∙ ap (λ l. l ++ signalled_by actions) s.got
    ∙ append_assoc (coming v) (signalled_by (a ∷ [])) (signalled_by actions)
    ∙ ap (λ l. coming v ++ l) (signalled_by_cons a actions)

-- When no chunk waits, the text of a window that has stayed open is what was signalled.
pub shown_text :
    (actions : List Action) (posts : List Text)
    → All StaysOpen actions
    → signalled_by actions ≡ posts
    → queued (act_all actions new_viewer).download.queue ≡ []
    → (act_all actions new_viewer).text ≡ posts
unfolding new_viewer queued
shown_text actions posts n s q =
    let u = act_all actions new_viewer in
    let o : IsOpen new_viewer = record {
      there = record { here = refl; listening = refl };
      delivered = refl;
    } in
    sym (append-nil u.text)
    ∙ ap (λ x. u.text ++ x) (sym q)
    ∙ act_all-coming actions new_viewer n o
    ∙ s
