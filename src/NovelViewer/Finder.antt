-- ===== src/NovelViewer/Finder.antt =====
-- The field to find a text: when it is there, and when the shortcut that opens it works.
use mathlib.Core.List.{append-nil, append_assoc}
use tianya.Prelude.{
  ◌≡◌, refl, sym, ◌∙◌, ap, Bool, true, false, not, List, [], ◌∷◌, ◌++◌, if◌then◌else◌,
}
use tianya.Text.{Text}
use tianya.TianyaDownload.{
  Effect, chunk_download_notify, download_progress_report, start_timer, download_complete,
  mailsend_progress_report, send_complete, start_send_mail, handle,
}
use tianya.NovelViewer.{
  NovelViewer, Action, from_download, find_triggered, slash_pressed, esc_pressed, edited,
  mail_triggered, bar_timeout, mail_bar_timeout, on_effect, on_effects, deliver, mail_to,
  showfind_widget, hidefind_widget, find_text, act, act_all,
}

-- What the last of the keys and clicks about the field leaves: whether it is there.
abbrev pub after_action : Bool → Action → Bool
after_action there find_triggered = true
after_action there slash_pressed = true
after_action there esc_pressed = false
after_action there _ = there

abbrev pub after_actions : Bool → List Action → Bool
after_actions there [] = there
after_actions there (a ∷ actions) = after_actions (after_action there a) actions

-- The text that is searched for, if the field is there.
abbrev pub searched : Action → Bool → List Text
searched (edited s) there = if there then s ∷ [] else []
searched _ there = []

abbrev pub typed : Bool → List Action → List Text
typed there [] = []
typed there (a ∷ actions) = searched a there ++ typed (after_action there a) actions

-- The shortcut is enabled as long as there is no field.
abbrev pub IsTidy : NovelViewer → Type 0
IsTidy v = v.temp_shortcut ≡ not v.findwindow

-- The field, the shortcut and the searches are as they were.
abbrev IsLeft : NovelViewer → NovelViewer → Type 0
IsLeft v u =
    (u.findwindow ≡ v.findwindow) × (u.temp_shortcut ≡ v.temp_shortcut) × (u.finds ≡ v.finds)

record After (v u : NovelViewer) (a : Action) : Type 0 where
  window : u.findwindow ≡ after_action v.findwindow a
  tidy : IsTidy u
  found : u.finds ≡ v.finds ++ searched a v.findwindow

on_effects-IsLeft : (log : List Effect) (v : NovelViewer) → IsLeft v (on_effects log v)
unfolding on_effects on_effect
on_effects-IsLeft [] v = (refl, refl, refl)
on_effects-IsLeft (chunk_download_notify s ∷ log) v =
    on_effects-IsLeft log (record v { text = _; status = _ })
on_effects-IsLeft (download_progress_report p ∷ log) v =
    on_effects-IsLeft log (record v { progress_bar = _ })
on_effects-IsLeft (start_timer ∷ log) v = on_effects-IsLeft log v
on_effects-IsLeft (download_complete ∷ log) v =
    on_effects-IsLeft log (record v { status = _; progress_bar = _ })
on_effects-IsLeft (mailsend_progress_report n ∷ log) v =
    on_effects-IsLeft log (record v { mail_bars = _ })
on_effects-IsLeft (send_complete ∷ log) v = on_effects-IsLeft log (record v { mail_bars = _ })

leaves :
    (v u : NovelViewer) (a : Action)
    → after_action v.findwindow a ≡ v.findwindow
    → searched a v.findwindow ≡ []
    → IsTidy v
    → IsLeft v u
    → After v u a
leaves v u a e f t (w, s, g) = record {
  window = w ∙ sym e;
  tidy = s ∙ t ∙ ap not (sym w);
  found = g ∙ sym (append-nil v.finds) ∙ ap (λ l. v.finds ++ l) (sym f);
}

-- An action other than `edited` searches for nothing.
unsearched :
    (v : NovelViewer) (a : Action)
    → searched a v.findwindow ≡ []
    → v.finds ≡ v.finds ++ searched a v.findwindow
unsearched v a e = sym (append-nil v.finds) ∙ ap (λ l. v.finds ++ l) (sym e)

shows :
    (c : Bool) (v u w : NovelViewer)
    → v.findwindow ≡ c
    → IsTidy v
    → IsLeft v u
    → w.findwindow ≡ true
    → w.temp_shortcut ≡ false
    → w.finds ≡ v.finds
    → After v (if c then u else w) find_triggered
shows true v u w e t (l, s, g) n m f = record {
  window = l ∙ e;
  tidy = s ∙ t ∙ ap not (sym l);
  found = g ∙ unsearched v find_triggered refl;
}
shows false v u w e t h n m f = record {
  window = n;
  tidy = m ∙ ap not (sym n);
  found = f ∙ unsearched v find_triggered refl;
}

show-After : (v : NovelViewer) → IsTidy v → After v (showfind_widget v) find_triggered
unfolding showfind_widget
show-After v t = shows v.findwindow v _ _ refl t (refl, refl, refl) refl refl refl

stands : (w : Bool) → false ≡ not w → w ≡ true
stands true h = refl
stands false h = h

slashed :
    (c : Bool) (v : NovelViewer)
    → v.temp_shortcut ≡ c
    → IsTidy v
    → After v (if c then showfind_widget v else v) slash_pressed
slashed true v e t =
    let a = show-After v t in
    record {
      window = a.window;
      tidy = a.tidy;
      found = a.found ∙ sym (unsearched v find_triggered refl) ∙ unsearched v slash_pressed refl;
    }
slashed false v e t = record {
  window = stands v.findwindow (sym e ∙ t);
  tidy = t;
  found = unsearched v slash_pressed refl;
}

finds_text :
    (c : Bool) (v : NovelViewer) (s : Text)
    → v.findwindow ≡ c
    → IsTidy v
    → After v (if c then record v { finds = v.finds ++ s ∷ [] } else v) (edited s)
finds_text true v s e t = record {
  window = refl;
  tidy = t;
  found = ap (λ w. v.finds ++ searched (edited s) w) (sym e);
}
finds_text false v s e t = record {
  window = refl;
  tidy = t;
  found = unsearched v (edited s) (ap (λ w. searched (edited s) w) e);
}

act-After : (a : Action) (v : NovelViewer) → IsTidy v → After v (act a v) a
unfolding act deliver mail_to hidefind_widget find_text
act-After (from_download e) v t =
    let d = handle e v.download in
    leaves v _ (from_download e) refl refl t
      (on_effects-IsLeft d.log (record v { download = record d { log = [] } }))
act-After find_triggered v t = show-After v t
act-After slash_pressed v t = slashed v.temp_shortcut v refl t
act-After esc_pressed v t = record {
  window = refl;
  tidy = refl;
  found = unsearched v esc_pressed refl;
}
act-After (edited s) v t = finds_text v.findwindow v s refl t
act-After mail_triggered v t =
    let d = start_send_mail v.download in
    leaves v _ mail_triggered refl refl t
      (on_effects-IsLeft d.log (record v { download = record d { log = [] }; mail_bars = _ }))
act-After bar_timeout v t = leaves v _ bar_timeout refl refl t (refl, refl, refl)
act-After (mail_bar_timeout n) v t = leaves v _ (mail_bar_timeout n) refl refl t (refl, refl, refl)

-- The field to find a text, whatever else happens to the window: it is there if the last of the keys
-- and clicks about it opened it, and a `/` opens it, which works exactly as long as it is not there,
-- so that it never stands twice; the texts searched for are those typed while it is there, in order.
pub act_all-typed :
    (actions : List Action) (v : NovelViewer)
    → IsTidy v
    → ((act_all actions v).findwindow ≡ after_actions v.findwindow actions)
      × IsTidy (act_all actions v)
      × ((act_all actions v).finds ≡ v.finds ++ typed v.findwindow actions)
unfolding act_all
act_all-typed [] v t = (refl, t, sym (append-nil v.finds))
act_all-typed (a ∷ actions) v t =
    let s = act-After a v t in
    let (w, t2, f) = act_all-typed actions (act a v) s.tidy in
    (
      w ∙ ap (λ x. after_actions x actions) s.window,
      t2,
      f
          ∙ ap (λ x. (act a v).finds ++ typed x actions) s.window
          ∙ ap (λ l. l ++ typed (after_action v.findwindow a) actions) s.found
          ∙ append_assoc v.finds (searched a v.findwindow)
              (typed (after_action v.findwindow a) actions),
    )
