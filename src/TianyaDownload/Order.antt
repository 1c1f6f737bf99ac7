-- ===== src/TianyaDownload/Order.antt =====
-- What a window sees of a download, while the object is there and after its end.
use mathlib.Core.List.{append-nil, append_assoc}
use tianya.Prelude.{
  ◌≡◌, refl, sym, ◌∙◌, ap, Bool, true, false, List, [], ◌∷◌, ◌++◌, inl, inr, Bool-cases,
  if◌then◌else◌, All,
}
use tianya.Text.{Text}
use tianya.TianyaDownload.{
  Task, chunk_task, complete_task, mail_task, Effect, chunk_download_notify,
  download_progress_report, start_timer, download_complete, mailsend_progress_report, send_complete,
  TianyaDownload, Event, one_content_fetched, completed, mail_handled, gui_turn, destroyed,
  post_on_gui_thread, emit, do_task, run_task, next_task, destroy, handle, handle_all,
}

next_task_gone :
    (tasks : List Task) (d : TianyaDownload)
    → d.is_gone ≡ true
    → (next_task tasks d).log ≡ d.log × ((next_task tasks d).is_gone ≡ true)
unfolding next_task run_task
next_task_gone [] d g = (refl, g)
next_task_gone (task ∷ tasks) d g = rw (g, next_task, run_task) (refl, refl)

post_gone :
    (c : Bool) (task : Task) (d : TianyaDownload)
    → d.is_gone ≡ true
    → ((if c then post_on_gui_thread task d else d).log ≡ d.log)
      × ((if c then post_on_gui_thread task d else d).is_gone ≡ true)
unfolding post_on_gui_thread
post_gone true task d g = (refl, g)
post_gone false task d g = (refl, g)

handle_gone :
    (e : Event) (d : TianyaDownload)
    → d.is_gone ≡ true
    → ((handle e d).log ≡ d.log) × ((handle e d).is_gone ≡ true)
unfolding handle post_on_gui_thread destroy
handle_gone (one_content_fetched c r) d g = post_gone d.connected (chunk_task c r) d g
handle_gone completed d g = post_gone d.connected complete_task d g
handle_gone mail_handled d g = rw (g, handle) (refl, refl)
handle_gone gui_turn d g = next_task_gone d.queue d g
handle_gone destroyed d g = (refl, refl)

-- Once the object has been destroyed, no task that is still queued and no signal that still comes
-- has any effect.
pub handle_all_gone :
    (events : List Event) (d : TianyaDownload)
    → d.is_gone ≡ true
    → (handle_all events d).log ≡ d.log
unfolding handle_all
handle_all_gone [] d g = refl
handle_all_gone (e ∷ events) d g =
    handle_all_gone events (handle e d) (handle_gone e d g).1 ∙ (handle_gone e d g).0

-- The chunks in a log, those still queued, and those that the worker's thread signals.
unfoldable pub shown : List Effect → List Text
shown [] = []
shown (chunk_download_notify s ∷ log) = s ∷ shown log
shown (download_progress_report r ∷ log) = shown log
shown (start_timer ∷ log) = shown log
shown (download_complete ∷ log) = shown log
shown (mailsend_progress_report n ∷ log) = shown log
shown (send_complete ∷ log) = shown log

unfoldable pub queued : List Task → List Text
queued [] = []
queued (chunk_task s r ∷ tasks) = s ∷ queued tasks
queued (complete_task ∷ tasks) = queued tasks
queued (mail_task ∷ tasks) = queued tasks

unfoldable pub signalled : List Event → List Text
signalled [] = []
signalled (one_content_fetched s r ∷ events) = s ∷ signalled events
signalled (completed ∷ events) = signalled events
signalled (mail_handled ∷ events) = signalled events
signalled (gui_turn ∷ events) = signalled events
signalled (destroyed ∷ events) = signalled events

abbrev pub IsNotEnd : Event → Type 0
IsNotEnd destroyed = ⊥
IsNotEnd _ = Unit

shown-append : (log more : List Effect) → shown (log ++ more) ≡ shown log ++ shown more
unfolding shown
shown-append [] more = refl
shown-append (chunk_download_notify s ∷ log) more = ap (λ l. s ∷ l) (shown-append log more)
shown-append (download_progress_report r ∷ log) more = shown-append log more
shown-append (start_timer ∷ log) more = shown-append log more
shown-append (download_complete ∷ log) more = shown-append log more
shown-append (mailsend_progress_report n ∷ log) more = shown-append log more
shown-append (send_complete ∷ log) more = shown-append log more

queued-append : (tasks more : List Task) → queued (tasks ++ more) ≡ queued tasks ++ queued more
unfolding queued
queued-append [] more = refl
queued-append (chunk_task s r ∷ tasks) more = ap (λ l. s ∷ l) (queued-append tasks more)
queued-append (complete_task ∷ tasks) more = queued-append tasks more
queued-append (mail_task ∷ tasks) more = queued-append tasks more

-- What has been shown and what waits, for an object that is there.
abbrev pub seen : TianyaDownload → List Text
seen d = shown d.log ++ queued d.queue

pub record IsThere (d : TianyaDownload) : Type 0 where
  pub here : d.is_gone ≡ false
  pub listening : d.connected ≡ true

pub record Step (d u : TianyaDownload) (news : List Text) : Type 0 where
  pub there : IsThere u
  pub grown : seen u ≡ seen d ++ news

pub emitted :
    (log effects : List Effect) (waiting : List Text)
    → shown (log ++ effects) ++ waiting ≡ (shown log ++ (shown effects ++ waiting)) ++ []
emitted log effects waiting =
    ap (λ l. l ++ waiting) (shown-append log effects)
    ∙ append_assoc (shown log) (shown effects) waiting
    ∙ sym (append-nil (shown log ++ (shown effects ++ waiting)))

do_task-Step :
    (task : Task) (tasks : List Task) (d : TianyaDownload)
    → IsThere d
    → Step (record d { queue = task ∷ tasks }) (do_task task (record d { queue = tasks })) []
unfolding do_task emit shown queued
do_task-Step (chunk_task s r) tasks d h = elim (Bool-cases d.first_chunk) [
  | inl f ↦
      rw (f, do_task)
        (record {
          there = record { here = h.here; listening = h.listening };
          grown =
              emitted d.log
                (chunk_download_notify s ∷ download_progress_report r ∷ start_timer ∷ [])
                (queued tasks);
        })
  | inr f ↦
      rw (f, do_task)
        (record {
          there = record { here = h.here; listening = h.listening };
          grown =
              emitted d.log (chunk_download_notify s ∷ download_progress_report r ∷ [])
                (queued tasks);
        })
]
do_task-Step complete_task tasks d h = record {
  there = record { here = h.here; listening = h.listening };
  grown = emitted d.log (download_complete ∷ []) (queued tasks);
}
do_task-Step mail_task tasks d h = record {
  there = record { here = h.here; listening = h.listening };
  grown = emitted d.log (mailsend_progress_report 100 ∷ send_complete ∷ []) (queued tasks);
}

next_task-Step :
    (tasks : List Task) (d : TianyaDownload)
    → IsThere d
    → Step (record d { queue = tasks }) (next_task tasks (record d { queue = tasks })) []
unfolding next_task run_task
next_task-Step [] d h = record {
  there = record { here = h.here; listening = h.listening };
  grown = sym (append-nil _);
}
next_task-Step (task ∷ tasks) d h =
    rw (h.here, next_task, run_task)
      (do_task-Step task tasks (record d { is_gone = false })
        (record { here = refl; listening = h.listening }))

waits_for :
    (task : Task) (d : TianyaDownload)
    → IsThere d
    → Step d (post_on_gui_thread task d) (queued (task ∷ []))
unfolding post_on_gui_thread
waits_for task d h = record {
  there = record { here = h.here; listening = h.listening };
  grown =
      ap (λ l. shown d.log ++ l) (queued-append d.queue (task ∷ []))
      ∙ sym (append_assoc (shown d.log) (queued d.queue) (queued (task ∷ [])));
}

posted :
    (task : Task) (d : TianyaDownload)
    → IsThere d
    → Step d (if d.connected then post_on_gui_thread task d else d) (queued (task ∷ []))
unfolding post_on_gui_thread
posted task d h =
    rw (h.listening)
      (waits_for task (record d { connected = true }) (record { here = h.here; listening = refl }))

pub handle-Step :
    (e : Event) (d : TianyaDownload)
    → IsNotEnd e
    → IsThere d
    → Step d (handle e d) (signalled (e ∷ []))
unfolding handle signalled queued
handle-Step (one_content_fetched s r) d n h = posted (chunk_task s r) d h
handle-Step completed d n h = posted complete_task d h
handle-Step mail_handled d n h =
    rw (h.here, handle)
      (waits_for mail_task (record d { is_gone = false })
        (record { here = refl; listening = h.listening }))
handle-Step gui_turn d n h = next_task-Step d.queue d h
handle-Step destroyed d n h = absurd n

pub signalled_cons :
    (e : Event) (events : List Event)
    → signalled (e ∷ []) ++ signalled events ≡ signalled (e ∷ events)
unfolding signalled
signalled_cons (one_content_fetched s r) events = refl
signalled_cons completed events = refl
signalled_cons mail_handled events = refl
signalled_cons gui_turn events = refl
signalled_cons destroyed events = refl

-- As long as the object is there, whatever the order in which the two threads take their turns: what
-- has been shown, with what still waits for the window's thread, is what there was before and then
-- every chunk that has been signalled, in order, none lost and none twice.
pub handle_all-seen :
    (events : List Event) (d : TianyaDownload)
    → All IsNotEnd events
    → IsThere d
    → seen (handle_all events d) ≡ seen d ++ signalled events
unfolding handle_all signalled
handle_all-seen [] d n h = sym (append-nil (seen d))
handle_all-seen (e ∷ events) d (n, ns) h =
    let s = handle-Step e d n h in
    handle_all-seen events (handle e d) ns s.there
    ∙ ap (λ l. l ++ signalled events) s.grown
    ∙ append_assoc (seen d) (signalled (e ∷ [])) (signalled events)
    ∙ ap (λ l. seen d ++ l) (signalled_cons e events)
