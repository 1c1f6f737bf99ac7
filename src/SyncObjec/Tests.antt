-- ===== src/SyncObjec/Tests.antt =====
-- Two downloads and the main window on one queue.
use tianya.Prelude.{pos, ◌≡◌, refl, List, [], ◌∷◌}
use tianya.Text.{codes}
use tianya.TianyaDownload.{
  one_content_fetched, completed, gui_turn, handle, chunk_download_notify, download_progress_report,
  start_timer, handle_all,
}
use tianya.TianyaDownload.Tests.{new_download}
use tianya.TianyaWindow.{new_window}
use tianya.SyncObjec.{SyncObjec, Step, happens, window_posts, turn, run}
use tianya.SyncObjec.Views.{view, tasks_of, run-view}

abbrev shared : SyncObjec
shared = record { queue = []; downloads = λ k. new_download; window = new_window }

abbrev steps : List Step
steps =
    happens 0 (one_content_fetched (codes "a") (pos 1, pos 1))
    ∷ window_posts
    ∷ happens 1 (one_content_fetched (codes "b") (pos 1, pos 1))
    ∷ turn
    ∷ happens 0 completed
    ∷ turn
    ∷ turn
    ∷ []

shows_second :
    (view 1 (run steps shared)).log
    ≡ chunk_download_notify (codes "b") ∷ download_progress_report (pos 1, pos 1) ∷ start_timer ∷ []
unfolding run handle
shows_second = refl

run-view_example :
    view 1 (run steps shared)
    ≡ handle_all (one_content_fetched (codes "b") (pos 1, pos 1) ∷ gui_turn ∷ []) new_download
unfolding run handle_all tasks_of
run-view_example = run-view 1 steps shared (tt, (tt, (tt, (tt, (tt, (tt, (tt, tt)))))))
