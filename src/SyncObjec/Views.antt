-- ===== src/SyncObjec/Views.antt =====
-- What one download sees of the queue that all share: a queue of its own.
use mathlib.Core.List.{append-nil}
use mathlib.Core.Path.{subst}
use tianya.Prelude.{
  ℕ, ◌≡◌, refl, sym, ◌∙◌, ap, Bool, true, false, List, [], ◌∷◌, ◌++◌, ◌==◌, if◌then◌else◌, All, inl,
  inr, Bool-cases, arith,
}
use tianya.TianyaDownload.{
  Task, chunk_task, complete_task, mail_task, TianyaDownload, Event, one_content_fetched, completed,
  mail_handled, gui_turn, destroyed, post_on_gui_thread, do_task, run_task, next_task, destroy,
  emit, handle, handle_all,
}
use tianya.SyncObjec.{
  SyncObjec, Posted, of_download, of_window, Step, happens, window_posts, turn, do_post, alone,
  posts_of, on_post, next_post, step, run,
}

-- The tasks of one download in the queue.
unfoldable pub tasks_of : ℕ → List Posted → List Task
tasks_of k [] = []
tasks_of k (of_download j task ∷ queue) =
    if k == j then task ∷ tasks_of k queue else tasks_of k queue
tasks_of k (of_window ∷ queue) = tasks_of k queue

-- A download with its part of the queue.
abbrev pub view : ℕ → SyncObjec → TianyaDownload
view k s = record (s.downloads k) { queue = tasks_of k s.queue }

abbrev pub turn_of : ℕ → List Posted → List Event
turn_of k [] = []
turn_of k (of_download j task ∷ queue) = if k == j then gui_turn ∷ [] else []
turn_of k (of_window ∷ queue) = []

-- What a step is for one download: its own event, a turn if the next task is its own, or nothing.
abbrev pub events_of : ℕ → Step → SyncObjec → List Event
events_of k (happens j e) s = if k == j then e ∷ [] else []
events_of k window_posts s = []
events_of k turn s = turn_of k s.queue

-- An event of a download other than a turn, which stands for itself.
abbrev pub IsEvent : Step → Type 0
IsEvent (happens k gui_turn) = ⊥
IsEvent _ = Unit

tasks_of-append :
    (k : ℕ) (xs ys : List Posted) → tasks_of k (xs ++ ys) ≡ tasks_of k xs ++ tasks_of k ys
unfolding tasks_of
tasks_of-append k [] ys = refl
tasks_of-append k (of_download j task ∷ xs) ys = ground (arith, tasks_of-append k xs ys)
tasks_of-append k (of_window ∷ xs) ys = tasks_of-append k xs ys

tasks_of-posts_of : (k : ℕ) (tasks : List Task) → tasks_of k (posts_of k tasks) ≡ tasks
unfolding tasks_of
tasks_of-posts_of k [] = refl
tasks_of-posts_of k (task ∷ tasks) = ground (arith, tasks_of-posts_of k tasks)

tasks_of-posts_of_other :
    (k j : ℕ) (tasks : List Task) → (k == j) ≡ false → tasks_of k (posts_of j tasks) ≡ []
unfolding tasks_of
tasks_of-posts_of_other k j [] h = refl
tasks_of-posts_of_other k j (task ∷ tasks) h = rw h (tasks_of-posts_of_other k j tasks h)

-- What an event adds to a queue does not depend on what stands in it.
abbrev onto : List Task → TianyaDownload → TianyaDownload
onto q d = record d { queue = q ++ d.queue }

if-onto :
    (c : Bool) (task : Task) (q : List Task) (d : TianyaDownload)
    → (if c then post_on_gui_thread task (record d { queue = q }) else record d { queue = q })
      ≡ onto q (if c then post_on_gui_thread task (alone d) else alone d)
unfolding post_on_gui_thread
if-onto true task q d = refl
if-onto false task q d = ap (λ x. record d { queue = x }) (sym (append-nil q))

handle-onto :
    (e : Event) (q : List Task) (d : TianyaDownload) (k : ℕ)
    → IsEvent (happens k e)
    → handle e (record d { queue = q }) ≡ onto q (handle e (alone d))
unfolding handle destroy
handle-onto (one_content_fetched s p) q d k h = if-onto d.connected (chunk_task s p) q d
handle-onto completed q d k h = if-onto d.connected complete_task q d
handle-onto mail_handled q d k h = elim (Bool-cases d.is_gone) [
  | inl g ↦ rw (g, handle) (ap (λ x. record d { is_gone = true; queue = x }) (sym (append-nil q)))
  | inr g ↦ rw (g, handle) (if-onto true mail_task q (record d { is_gone = false }))
]
handle-onto gui_turn q d k h = absurd h
handle-onto destroyed q d k h =
    ap (λ x. record d { is_gone = true; connected = false; queue = x }) (sym (append-nil q))

do_task_queue :
    (task : Task) (q : List Task) (d : TianyaDownload)
    → do_task task (record d { queue = q }) ≡ record (do_task task d) { queue = q }
unfolding do_task emit
do_task_queue (chunk_task s p) q d = elim (Bool-cases d.first_chunk) [
  | inl f ↦ rw (f, do_task) refl
  | inr f ↦ rw (f, do_task) refl
]
do_task_queue complete_task q d = refl
do_task_queue mail_task q d = refl

run_task_queue :
    (task : Task) (q : List Task) (d : TianyaDownload)
    → run_task task (record d { queue = q }) ≡ record (run_task task d) { queue = q }
unfolding run_task
run_task_queue task q d = elim (Bool-cases d.is_gone) [
  | inl g ↦ rw (g, run_task) refl
  | inr g ↦ rw (g, run_task) (do_task_queue task q (record d { is_gone = false }))
]

if_same {ℓ} : {A : Type ℓ} (c : Bool) (x y : A) → c ≡ true → (if c then x else y) ≡ x
if_same c x y h = rw h refl

if_other {ℓ} : {A : Type ℓ} (c : Bool) (x y : A) → c ≡ false → (if c then x else y) ≡ y
if_other c x y h = rw h refl

same_id : (k : ℕ) → (k == k) ≡ true
same_id k = ground arith

abbrev with_queue : List Task → TianyaDownload → TianyaDownload
with_queue q d = record d { queue = q }

-- A step of the whole is, for a download, the events of its own that the step stands for.
abbrev Simulates : ℕ → SyncObjec → Step → Type 0
Simulates k s a = view k (step a s) ≡ handle_all (events_of k a s) (view k s)

own_event :
    (k : ℕ) (e : Event) (s : SyncObjec) → IsEvent (happens k e) → Simulates k s (happens k e)
unfolding step do_post handle_all
own_event k e s h =
    let d = handle e (alone (s.downloads k)) in
    ap (with_queue (tasks_of k (s.queue ++ posts_of k d.queue)))
      (if_same (k == k) (alone d) (s.downloads k) (same_id k))
    ∙ ap (λ q. record d { queue = q })
        (tasks_of-append k s.queue (posts_of k d.queue)
          ∙ ap (λ q. tasks_of k s.queue ++ q) (tasks_of-posts_of k d.queue))
    ∙ sym (handle-onto e (tasks_of k s.queue) (s.downloads k) k h)
    ∙ ap (λ l. handle_all l (view k s)) (sym (if_same (k == k) (e ∷ []) [] (same_id k)))

other_event : (k j : ℕ) (e : Event) (s : SyncObjec) → (k == j) ≡ false → Simulates k s (happens j e)
unfolding step do_post handle_all
other_event k j e s o =
    let d = handle e (alone (s.downloads j)) in
    ap (with_queue (tasks_of k (s.queue ++ posts_of j d.queue)))
      (if_other (k == j) (alone d) (s.downloads k) o)
    ∙ ap (λ q. record (s.downloads k) { queue = q })
        (tasks_of-append k s.queue (posts_of j d.queue)
          ∙ ap (λ q. tasks_of k s.queue ++ q) (tasks_of-posts_of_other k j d.queue o)
          ∙ append-nil (tasks_of k s.queue))
    ∙ ap (λ l. handle_all l (view k s)) (sym (if_other (k == j) (e ∷ []) [] o))

own_turn :
    (k : ℕ) (task : Task) (queue : List Posted) (s : SyncObjec)
    → view k (next_post (of_download k task ∷ queue) s)
      ≡ handle_all
          (turn_of k (of_download k task ∷ queue))
          (record (s.downloads k) { queue = tasks_of k (of_download k task ∷ queue) })
unfolding next_post on_post handle_all handle next_task tasks_of
own_turn k task queue s =
    ap (with_queue (tasks_of k queue))
      (if_same (k == k) (run_task task (s.downloads k)) (s.downloads k) (same_id k))
    ∙ sym (run_task_queue task (tasks_of k queue) (s.downloads k))
    ∙ ap (λ q. handle gui_turn (record (s.downloads k) { queue = q }))
        (sym (if_same (k == k) (task ∷ tasks_of k queue) (tasks_of k queue) (same_id k)))
    ∙ ap
        (λ l.
          handle_all l (record (s.downloads k) { queue = tasks_of k (of_download k task ∷ queue) }))
        (sym (if_same (k == k) (gui_turn ∷ []) [] (same_id k)))

other_turn :
    (k j : ℕ) (task : Task) (queue : List Posted) (s : SyncObjec)
    → (k == j) ≡ false
    → view k (next_post (of_download j task ∷ queue) s)
      ≡ handle_all
          (turn_of k (of_download j task ∷ queue))
          (record (s.downloads k) { queue = tasks_of k (of_download j task ∷ queue) })
unfolding next_post on_post handle_all tasks_of
other_turn k j task queue s o =
    ap (with_queue (tasks_of k queue))
      (if_other (k == j) (run_task task (s.downloads j)) (s.downloads k) o)
    ∙ ap (λ q. record (s.downloads k) { queue = q })
        (sym (if_other (k == j) (task ∷ tasks_of k queue) (tasks_of k queue) o))
    ∙ ap
        (λ l.
          handle_all l (record (s.downloads k) { queue = tasks_of k (of_download j task ∷ queue) }))
        (sym (if_other (k == j) (gui_turn ∷ []) [] o))

window_turn :
    (k : ℕ) (queue : List Posted) (s : SyncObjec)
    → view k (next_post (of_window ∷ queue) s)
      ≡ record (s.downloads k) { queue = tasks_of k (of_window ∷ queue) }
unfolding next_post on_post tasks_of
window_turn k queue s = refl

turn_view :
    (k : ℕ) (queue : List Posted) (s : SyncObjec)
    → view k (next_post queue (record s { queue = queue }))
      ≡ handle_all (turn_of k queue) (view k (record s { queue = queue }))
unfolding handle_all
turn_view k [] s = unfold next_post in refl
turn_view k (of_window ∷ queue) s = window_turn k queue (record s { queue = of_window ∷ queue })
turn_view k (of_download j task ∷ queue) s = elim (Bool-cases (k == j)) [
  | inl c ↦
      let same : k ≡ j = ground (arith, c) in
      let at = λ (i : ℕ). record s { queue = of_download i task ∷ queue } in
      subst
        (λ i.
          view k (next_post (of_download i task ∷ queue) (at i))
          ≡ handle_all (turn_of k (of_download i task ∷ queue)) (view k (at i)))
        same (own_turn k task queue (at k))
  | inr c ↦ other_turn k j task queue (record s { queue = of_download j task ∷ queue }) c
]

step-Simulates : (k : ℕ) (a : Step) (s : SyncObjec) → IsEvent a → Simulates k s a
unfolding step do_post tasks_of handle_all
step-Simulates k (happens j e) s h = elim (Bool-cases (k == j)) [
  | inl c ↦
      let same : k ≡ j = ground (arith, c) in
      subst (λ i. Simulates k s (happens i e)) same (own_event k e s (still k e j h))
  | inr c ↦ other_event k j e s c
]
  where
    still : (k : ℕ) (e : Event) (j : ℕ) → IsEvent (happens j e) → IsEvent (happens k e)
    still k (one_content_fetched t p) j h = tt
    still k completed j h = tt
    still k mail_handled j h = tt
    still k gui_turn j h = h
    still k destroyed j h = tt
step-Simulates k window_posts s h =
    ap (λ q. record (s.downloads k) { queue = q })
      (tasks_of-append k s.queue (of_window ∷ []) ∙ append-nil (tasks_of k s.queue))
step-Simulates k turn s h = turn_view k s.queue s

-- The steps as they are for one download.
abbrev pub events_for : ℕ → List Step → SyncObjec → List Event
events_for k [] s = []
events_for k (a ∷ steps) s = events_of k a s ++ events_for k steps (step a s)

handle_all-append :
    (xs ys : List Event) (d : TianyaDownload)
    → handle_all (xs ++ ys) d ≡ handle_all ys (handle_all xs d)
unfolding handle_all
handle_all-append [] ys d = refl
handle_all-append (e ∷ xs) ys d = handle_all-append xs ys (handle e d)

-- The one queue that all windows share is, for each download, a queue of its own: after any steps, in
-- whatever order the downloads, the main window and the turns of the window's thread come, a download
-- with its part of the queue is as its own events and its own turns alone make it. What the others
-- do, and the turns that run their functions, change nothing for it.
pub run-view :
    (k : ℕ) (steps : List Step) (s : SyncObjec)
    → All IsEvent steps
    → view k (run steps s) ≡ handle_all (events_for k steps s) (view k s)
unfolding run handle_all
run-view k [] s h = refl
run-view k (a ∷ steps) s (h, hs) =
    run-view k steps (step a s) hs
    ∙ ap (handle_all (events_for k steps (step a s))) (step-Simulates k a s h)
    ∙ sym (handle_all-append (events_of k a s) (events_for k steps (step a s)) (view k s))
