-- ===== src/SendProgress/Mails.antt =====
-- The mails that the window starts: one for each end of its download, with all that was downloaded.
use mathlib.Core.List.{append-nil, append_assoc}
use mathlib.Core.Path.{subst}
use tianya.Prelude.{
  ℕ, zero, suc, ◌+◌, ◌≡◌, refl, sym, ◌∙◌, ap, Bool, true, false, List, [], ◌∷◌, ◌++◌, arith,
  if◌then◌else◌, length, length-append, All, All-append, inl, inr, Bool-cases,
}
use tianya.TianyaContext.Machine.{TianyaContext}
use tianya.TianyaDownload.{
  Task, chunk_task, complete_task, mail_task, TianyaDownload, Effect, chunk_download_notify,
  download_progress_report, start_timer, download_complete, mailsend_progress_report, send_complete,
  start_send_mail, emit, post_on_gui_thread, next_task, run_task, do_task, handle,
}
use tianya.SendProgress.{
  SendProgress, Action, chunk_fetched, download_ended, mail_ended, gui_turn, timeout, closed,
  set_download_work_percent, set_send_work_percent, mail_sended, call, on_signal, on_signals,
  start_sendmail, on_effects, act, act_all,
}

-- The window stays open.
abbrev pub StaysOpen : Action → Type 0
StaysOpen timeout = ⊥
StaysOpen closed = ⊥
StaysOpen _ = Unit

-- The ends of a download that are signalled, and those that wait for the window's thread.
abbrev pub ends : List Action → ℕ
ends [] = 0
ends (download_ended ∷ actions) = suc (ends actions)
ends (_ ∷ actions) = ends actions

unfoldable pub waiting : List Task → ℕ
waiting [] = 0
waiting (complete_task ∷ tasks) = suc (waiting tasks)
waiting (chunk_task s p ∷ tasks) = waiting tasks
waiting (mail_task ∷ tasks) = waiting tasks

-- Whether the end has come, after an action.
abbrev pub ended_by : Bool → Action → Bool
ended_by ended download_ended = true
ended_by ended _ = ended

-- Once the end has been signalled, the tianya_context stays as it is.
abbrev pub IsSettled : TianyaContext → Bool → Action → Type 0
IsSettled final true (gui_turn c) = c ≡ final
IsSettled final ended _ = Unit

abbrev pub Settles : TianyaContext → Bool → List Action → Type 0
Settles final ended [] = Unit
Settles final ended (a ∷ actions) =
    IsSettled final ended a × Settles final (ended_by ended a) actions

-- The window is open, has no effect left, every mail was built of the whole, and before the end of
-- the download none waits to be told.
pub record Holds (final : TianyaContext) (ended : Bool) (v : SendProgress) : Type 0 where
  pub here : v.download.is_gone ≡ false
  pub listening : v.download.connected ≡ true
  pub delivered : v.download.log ≡ []
  pub whole : All (λ c. c ≡ final) v.mails
  pub not_yet : ended ≡ false → waiting v.download.queue ≡ 0

waiting-append : (tasks more : List Task) → waiting (tasks ++ more) ≡ waiting tasks + waiting more
unfolding waiting
waiting-append [] more = omega arith
waiting-append (complete_task ∷ tasks) more = omega (arith, waiting-append tasks more)
waiting-append (chunk_task s p ∷ tasks) more = waiting-append tasks more
waiting-append (mail_task ∷ tasks) more = waiting-append tasks more

-- The mails and the download are left alone.
abbrev IsLeft : SendProgress → SendProgress → Type 0
IsLeft v u = (u.mails ≡ v.mails) × (u.download ≡ v.download)

call-IsLeft :
    (n : ℕ) (slot : SendProgress → SendProgress) (v : SendProgress)
    → ((u : SendProgress) → IsLeft u (slot u))
    → IsLeft v (call n slot v)
unfolding call
call-IsLeft zero slot v h = (refl, refl)
call-IsLeft (suc n) slot v h =
    let (m, d) = call-IsLeft n slot (slot v) h in (m ∙ (h v).0, d ∙ (h v).1)

on_signal-IsLeft : (e : Effect) (v : SendProgress) → IsLeft v (on_signal e v)
unfolding on_signal set_download_work_percent set_send_work_percent mail_sended
on_signal-IsLeft (chunk_download_notify s) v = (refl, refl)
on_signal-IsLeft (download_progress_report p) v = (refl, refl)
on_signal-IsLeft start_timer v = (refl, refl)
on_signal-IsLeft download_complete v = (refl, refl)
on_signal-IsLeft (mailsend_progress_report n) v =
    call-IsLeft v.connected (set_send_work_percent n) v (λ u. (refl, refl))
on_signal-IsLeft send_complete v = call-IsLeft v.connected mail_sended v (λ u. (refl, refl))

on_signals-IsLeft : (log : List Effect) (v : SendProgress) → IsLeft v (on_signals log v)
unfolding on_signals
on_signals-IsLeft [] v = (refl, refl)
on_signals-IsLeft (e ∷ log) v =
    let (m, d) = on_signals-IsLeft log (on_signal e v) in
    let (n, f) = on_signal-IsLeft e v in (m ∙ n, d ∙ f)

-- A mail for each end of a download that is told.
abbrev told : TianyaContext → List Effect → List TianyaContext
told c [] = []
told c (download_complete ∷ log) = c ∷ told c log
told c (_ ∷ log) = told c log

abbrev Starts : TianyaContext → List Effect → SendProgress → SendProgress → Type 0
Starts c log v u = (u.mails ≡ v.mails ++ told c log) × (u.download ≡ v.download)

passes :
    (c : TianyaContext) (e : Effect) (log : List Effect) (v : SendProgress)
    → Starts c log (on_signal e v) (on_effects c log (on_signal e v))
    → Starts c log v (on_effects c log (on_signal e v))
passes c e log v (m, d) =
    let (n, f) = on_signal-IsLeft e v in (m ∙ ap (λ l. l ++ told c log) n, d ∙ f)

on_effects-Starts :
    (c : TianyaContext) (log : List Effect) (v : SendProgress) → Starts c log v (on_effects c log v)
unfolding on_effects start_sendmail
on_effects-Starts c [] v = (sym (append-nil v.mails), refl)
on_effects-Starts c (download_complete ∷ log) v =
    let (m, d) = on_effects-Starts c log (start_sendmail c v) in
    let (n, f) =
      on_signals-IsLeft (start_send_mail v.download).log
        (record v { value = _; format = _; connected = _; mails = v.mails ++ c ∷ [] }) in
    (m ∙ ap (λ l. l ++ told c log) n ∙ append_assoc v.mails (c ∷ []) (told c log), d ∙ f)
on_effects-Starts c (chunk_download_notify s ∷ log) v =
    passes c (chunk_download_notify s) log v (on_effects-Starts c log _)
on_effects-Starts c (download_progress_report p ∷ log) v =
    passes c (download_progress_report p) log v (on_effects-Starts c log _)
on_effects-Starts c (start_timer ∷ log) v = passes c start_timer log v (on_effects-Starts c log _)
on_effects-Starts c (mailsend_progress_report n ∷ log) v =
    passes c (mailsend_progress_report n) log v (on_effects-Starts c log _)
on_effects-Starts c (send_complete ∷ log) v =
    passes c send_complete log v (on_effects-Starts c log _)

told_all : (c : TianyaContext) (log : List Effect) → All (λ x. x ≡ c) (told c log)
told_all c [] = tt
told_all c (download_complete ∷ log) = (refl, told_all c log)
told_all c (chunk_download_notify s ∷ log) = told_all c log
told_all c (download_progress_report p ∷ log) = told_all c log
told_all c (start_timer ∷ log) = told_all c log
told_all c (mailsend_progress_report n ∷ log) = told_all c log
told_all c (send_complete ∷ log) = told_all c log

-- What a turn of the window's thread makes of the download: of the ends that wait, those that are not
-- told still wait.
record Turned (c : TianyaContext) (d u : TianyaDownload) : Type 0 where
  here : u.is_gone ≡ false
  listening : u.connected ≡ d.connected
  tells : length (told c u.log) + waiting u.queue ≡ waiting d.queue

do_task-Turned :
    (c : TianyaContext) (task : Task) (tasks : List Task) (d : TianyaDownload)
    → d.is_gone ≡ false
    → d.log ≡ []
    → Turned c (record d { queue = task ∷ tasks }) (do_task task (record d { queue = tasks }))
unfolding do_task emit waiting
do_task-Turned c (chunk_task s p) tasks d g l = elim (Bool-cases d.first_chunk) [
  | inl f ↦ rw (f, do_task) (record { here = g; listening = refl; tells = rw l (omega arith) })
  | inr f ↦ rw (f, do_task) (record { here = g; listening = refl; tells = rw l (omega arith) })
]
do_task-Turned c complete_task tasks d g l = record {
  here = g;
  listening = refl;
  tells = rw l (omega arith);
}
do_task-Turned c mail_task tasks d g l = record {
  here = g;
  listening = refl;
  tells = rw l (omega arith);
}

next_task-Turned :
    (c : TianyaContext) (tasks : List Task) (d : TianyaDownload)
    → d.is_gone ≡ false
    → d.log ≡ []
    → Turned c (record d { queue = tasks }) (next_task tasks (record d { queue = tasks }))
unfolding next_task run_task
next_task-Turned c [] d g l = record { here = g; listening = refl; tells = rw l (omega arith) }
next_task-Turned c (task ∷ tasks) d g l =
    rw (g, next_task, run_task) (do_task-Turned c task tasks (record d { is_gone = false }) refl l)

none_told : (cs : List TianyaContext) (n : ℕ) → length cs + n ≡ 0 → cs ≡ []
none_told [] n h = refl
none_told (c ∷ cs) n h = absurd (omega arith)

-- The window after an action: the ends that have come have each started a mail, or wait.
record After (final : TianyaContext) (ended : Bool) (v u : SendProgress) (n : ℕ) : Type 0 where
  holds : Holds final ended u
  counted :
      length u.mails + waiting u.download.queue ≡ length v.mails + waiting v.download.queue + n

all_final :
    (final c : TianyaContext) (cs : List TianyaContext)
    → c ≡ final
    → All (λ x. x ≡ c) cs
    → All (λ x. x ≡ final) cs
all_final final c [] e h = tt
all_final final c (x ∷ cs) e (h, hs) = (h ∙ e, all_final final c cs e hs)

-- Before the end has come none is told, and later it is told of the whole download.
told_final :
    (final c : TianyaContext) (ended : Bool) (log : List Effect) (n k : ℕ)
    → (ended ≡ true → c ≡ final)
    → (ended ≡ false → k ≡ 0)
    → length (told c log) + n ≡ k
    → All (λ x. x ≡ final) (told c log)
told_final final c true log n k e z h = all_final final c (told c log) (e refl) (told_all c log)
told_final final c false log n k e z h =
    subst (All (λ x. x ≡ final)) (sym (none_told (told c log) n (h ∙ z refl))) tt

-- A turn tells no end before it has come, and later it tells it with the whole download.
turn-After :
    (final c : TianyaContext) (ended : Bool) (v : SendProgress)
    → (ended ≡ true → c ≡ final)
    → Holds final ended v
    → After final ended v (act (gui_turn c) v) 0
unfolding act
turn-After final c ended v e h =
    let d = next_task v.download.queue v.download in
    let t : Turned c v.download d =
      next_task-Turned c v.download.queue v.download h.here h.delivered in
    let (m, f) = on_effects-Starts c d.log (record v { download = record d { log = [] } }) in
    record {
      holds = record {
        here = ap (λ x. x.is_gone) f ∙ t.here;
        listening = ap (λ x. x.connected) f ∙ t.listening ∙ h.listening;
        delivered = ap (λ x. x.log) f;
        whole = subst (All (λ x. x ≡ final)) (sym m) (
            All-append (λ x. x ≡ final) v.mails (told c d.log) h.whole
              (told_final final c ended d.log (waiting d.queue) _ e h.not_yet t.tells));
        not_yet = λ n. omega (arith, t.tells, h.not_yet n, ap (λ x. waiting x.queue) f);
      };
      counted = omega (
        arith,
        t.tells,
        ap length m,
        length-append {0} v.mails (told c d.log),
        ap (λ x. waiting x.queue) f,
      );
    }

post-After :
    (final : TianyaContext) (ended later : Bool) (v : SendProgress) (task : Task)
    → (later ≡ false → waiting (task ∷ []) ≡ 0)
    → (later ≡ false → ended ≡ false)
    → Holds final ended v
    → After final later v
        (record v { download = post_on_gui_thread task v.download })
        (waiting (task ∷ []))
unfolding post_on_gui_thread
post-After final ended later v task z k h = record {
  holds = record {
    here = h.here;
    listening = h.listening;
    delivered = h.delivered;
    whole = h.whole;
    not_yet = λ n. omega (arith, waiting-append v.download.queue (task ∷ []), z n, h.not_yet (k n));
  };
  counted = omega (arith, waiting-append v.download.queue (task ∷ []));
}

if-After :
    (final : TianyaContext) (later : Bool) (v : SendProgress) (n : ℕ) (c : Bool)
    (d u : TianyaDownload)
    → c ≡ true
    → After final later v (record v { download = d }) n
    → After final later v (record v { download = if c then d else u }) n
if-After final later v n true d u e a = a
if-After final later v n false d u e a = cc

settled :
    (final c : TianyaContext) (ended : Bool)
    → IsSettled final ended (gui_turn c)
    → ended ≡ true
    → c ≡ final
settled final c true h e = h
settled final c false h e = cc

act-After :
    (final : TianyaContext) (ended : Bool) (a : Action) (v : SendProgress)
    → StaysOpen a
    → IsSettled final ended a
    → Holds final ended v
    → After final (ended_by ended a) v (act a v) (ends (a ∷ []))
unfolding act handle waiting
act-After final ended (chunk_fetched s p) v o k h =
    if-After final ended v 0 v.download.connected _ v.download h.listening
      (post-After final ended ended v (chunk_task s p) (λ _. refl) (λ n. n) h)
act-After final ended download_ended v o k h =
    if-After final true v 1 v.download.connected _ v.download h.listening
      (post-After final ended true v complete_task (λ n. cc) (λ n. cc) h)
act-After final ended mail_ended v o k h =
    rw (h.here, handle)
      (post-After final ended ended
        (record v { download = record (v.download) { is_gone = false } }) mail_task (λ _. refl)
        (λ n. n)
        (record {
          here = refl;
          listening = h.listening;
          delivered = h.delivered;
          whole = h.whole;
          not_yet = h.not_yet;
        }))
act-After final ended (gui_turn c) v o k h = turn-After final c ended v (settled final c ended k) h
act-After final ended timeout v o k h = absurd o
act-After final ended closed v o k h = absurd o

ends_cons : (a : Action) (actions : List Action) → ends (a ∷ []) + ends actions ≡ ends (a ∷ actions)
ends_cons (chunk_fetched s p) actions = omega arith
ends_cons download_ended actions = omega arith
ends_cons mail_ended actions = omega arith
ends_cons (gui_turn c) actions = omega arith
ends_cons timeout actions = omega arith
ends_cons closed actions = omega arith

pub act_all-counted :
    (final : TianyaContext) (ended : Bool) (actions : List Action) (v : SendProgress)
    → All StaysOpen actions
    → Settles final ended actions
    → Holds final ended v
    → All (λ c. c ≡ final) (act_all actions v).mails
      × (length (act_all actions v).mails + waiting (act_all actions v).download.queue
          ≡ length v.mails + waiting v.download.queue + ends actions)
unfolding act_all
act_all-counted final ended [] v o k h = (h.whole, omega arith)
act_all-counted final ended (a ∷ actions) v (o, os) (k, ks) h =
    let s = act-After final ended a v o k h in
    let (w, n) = act_all-counted final (ended_by ended a) actions (act a v) os ks s.holds in
    (w, omega (arith, n, s.counted, ends_cons a actions))
