-- ===== src/SyncObjec.antt =====
-- src/syncobj.cpp and src/main.cpp: post_on_gui_thread for all windows. SyncObjec has one queue: a
-- function that is posted runs in a later turn of the window's thread, in the order of posting.
pub mod Views
pub mod Tests
use tianya.Prelude.{ℕ, Bool, List, [], ◌∷◌, ◌++◌, ◌==◌, if◌then◌else◌}
use tianya.TianyaDownload.{Task, TianyaDownload, Event, run_task, handle}
use tianya.TianyaWindow.{TianyaWindow, adjust}

-- The functions that the program posts: those of a download, which is one of many, and that of the
-- main window.
pub data Posted : Type 0 where
  of_download : ℕ → Task → Posted
  of_window : Posted

-- The queue, and the objects that the posted functions work on. A download has no queue of its own
-- here.
pub record SyncObjec : Type 0 where
  pub queue : List Posted
  pub downloads : ℕ → TianyaDownload
  pub window : TianyaWindow

-- Something happens to a download, the main window posts, or the window's thread takes a turn.
pub data Step : Type 0 where
  happens : ℕ → Event → Step
  window_posts : Step
  turn : Step

unfoldable pub do_post : List Posted → SyncObjec → SyncObjec
do_post posted s = record s { queue = s.queue ++ posted }

abbrev pub update : ℕ → TianyaDownload → (ℕ → TianyaDownload) → ℕ → TianyaDownload
update k d downloads j = if j == k then d else downloads j

abbrev pub alone : TianyaDownload → TianyaDownload
alone d = record d { queue = [] }

abbrev pub posts_of : ℕ → List Task → List Posted
posts_of k [] = []
posts_of k (task ∷ tasks) = of_download k task ∷ posts_of k tasks

unfoldable pub on_post : Posted → SyncObjec → SyncObjec
unfolding run_task adjust
on_post (of_download k task) s = record s {
  downloads = update k (run_task task (s.downloads k)) s.downloads;
}
on_post of_window s = record s { window = adjust s.window }

unfoldable pub next_post : List Posted → SyncObjec → SyncObjec
unfolding on_post
next_post [] s = s
next_post (posted ∷ queue) s = on_post posted (record s { queue = queue })

unfoldable pub step : Step → SyncObjec → SyncObjec
unfolding do_post next_post
step (happens k e) s =
    let d = handle e (alone (s.downloads k)) in
    do_post (posts_of k d.queue) (record s { downloads = update k (alone d) s.downloads })
step window_posts s = do_post (of_window ∷ []) s
step turn s = next_post s.queue s

unfoldable pub run : List Step → SyncObjec → SyncObjec
unfolding step
run [] s = s
run (a ∷ steps) s = run steps (step a s)
