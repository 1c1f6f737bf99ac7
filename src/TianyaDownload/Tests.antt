-- ===== src/TianyaDownload/Tests.antt =====
-- A download whose window is slow, and one whose window is closed.
use tianya.Prelude.{◌≡◌, refl, pos, true, false, List, [], ◌∷◌}
use tianya.Text.{codes}
use tianya.TianyaDownload.{
  TianyaDownload, Event, one_content_fetched, completed, mail_handled, gui_turn, chunk_task,
  handle_all,
}
use tianya.TianyaDownload.Order.{
  IsThere, seen, shown, queued, signalled, handle_all-seen, handle_all_gone,
}

abbrev pub new_download : TianyaDownload
new_download = record {
  is_gone = false;
  first_chunk = true;
  connected = true;
  queue = [];
  log = [];
}

new_download-IsThere : IsThere new_download
new_download-IsThere = record { here = refl; listening = refl }

abbrev turns : List Event
turns =
    one_content_fetched (codes "a") (pos 1, pos 2)
    ∷ one_content_fetched (codes "b") (pos 2, pos 2)
    ∷ gui_turn
    ∷ completed
    ∷ []

handle_all-seen_example : seen (handle_all turns new_download) ≡ codes "a" ∷ codes "b" ∷ []
unfolding shown queued signalled
handle_all-seen_example =
    handle_all-seen turns new_download (tt, (tt, (tt, (tt, tt)))) new_download-IsThere

abbrev closed_window : TianyaDownload
closed_window = record new_download {
  is_gone = true;
  connected = false;
  queue = chunk_task (codes "a") (pos 1, pos 2) ∷ [];
}

handle_all_gone_example : (handle_all (gui_turn ∷ mail_handled ∷ turns) closed_window).log ≡ []
handle_all_gone_example = handle_all_gone (gui_turn ∷ mail_handled ∷ turns) closed_window refl
