-- ===== src/TianyaModel/Tests.antt =====
-- The table of posts at concrete rows.
use tianya.Prelude.{ℕ, suc, ◌≤◌, ◌≡◌, refl, arith, ltb, pos, negsuc, false, [], ◌∷◌}
use tianya.Text.{Text, codes, equal, equal_iff}
use tianya.TianyaList.Info.{ListInfo}
use tianya.TianyaModel.{
  TianyaModel, insert_point, last_has_url, update_tianya_list, model_data, user_role, invalid,
  begin_insert_rows, end_insert_rows, row_count, column_count, header_data, horizontal,
  display_role,
}
use tianya.TianyaModel.Kinds.{kind, is_valid, cell, model_data-kind}
use tianya.TianyaModel.Order.{IsDescending, update_tianya_list-IsDescending}
use tianya.TianyaModel.Rows.{Updated, update_tianya_list-Updated, model_data-row_count}
use tianya.TianyaModel.Unique.{count_url, update_tianya_list-count_url, update_tianya_list_repeats}

abbrev post : Text → ℕ → ListInfo
post url n = record {
  title = codes "t";
  post_url = url;
  author = codes "a";
  hits = pos n;
  replys = pos 0;
  post_time = codes "12:30";
}

abbrev two_posts : TianyaModel
two_posts = record { list_info = post (codes "a") 9 ∷ post (codes "b") 4 ∷ [] }

signals_test :
    (update_tianya_list (post (codes "c") 7) two_posts).1
    ≡ begin_insert_rows 1 1 ∷ end_insert_rows ∷ []
unfolding update_tianya_list insert_point equal
signals_test = refl

update_tianya_list-IsDescending_example :
    IsDescending (update_tianya_list (post (codes "c") 7) two_posts).0.list_info
update_tianya_list-IsDescending_example =
    update_tianya_list-IsDescending (post (codes "c") 7) two_posts (omega arith)

update_tianya_list-Updated_example :
    Updated
      (post (codes "c") 7)
      two_posts
      (update_tianya_list (post (codes "c") 7) two_posts).0
      (update_tianya_list (post (codes "c") 7) two_posts).1
update_tianya_list-Updated_example = update_tianya_list-Updated (post (codes "c") 7) two_posts

two_posts_once : (url : Text) → count_url url two_posts.list_info ≤ 1
two_posts_once url = ground (arith, equal_iff (codes "a") url, equal_iff (codes "b") url)

update_tianya_list-count_url_example :
    count_url (codes "a") (update_tianya_list (post (codes "a") 7) two_posts).0.list_info ≤ 1
unfolding insert_point
update_tianya_list-count_url_example =
    update_tianya_list-count_url (post (codes "a") 7) two_posts (omega arith) two_posts_once
      (codes "a")

update_tianya_list_repeats_example :
    count_url (codes "a") (update_tianya_list (post (codes "a") 2) two_posts).0.list_info
    ≡ suc (count_url (codes "a") two_posts.list_info)
unfolding insert_point last_has_url equal
update_tianya_list_repeats_example =
    update_tianya_list_repeats (post (codes "a") 2) two_posts refl refl

model_data-row_count_test :
    model_data two_posts
      (record { row = negsuc 0; column = pos 0; has_parent = false })
      (user_role 2)
    ≡ invalid
model_data-row_count_test = (model_data-row_count two_posts (pos 0) (user_role 2)).2 0 false

model_data-kind_example :
    (is_valid (cell two_posts 0 3) ≡ ltb 3 (column_count false))
    × (is_valid (header_data (pos 3) horizontal display_role) ≡ ltb 3 (column_count false))
    × (kind (cell two_posts 0 3) ≡ kind (cell two_posts 1 3))
unfolding row_count
model_data-kind_example = model_data-kind two_posts 0 1 3 (omega arith) (omega arith)
