-- ===== src/TianyaList/Info.antt =====
-- `list_info` of libtianya/include/tianya_list.hpp: one row of the board's list of posts.
use tianya.Prelude.{ℤ}
use tianya.Text.{Text}

pub record ListInfo : Type 0 where
  pub title : Text
  pub post_url : Text
  pub author : Text
  pub hits : ℤ
  pub replys : ℤ
  pub post_time : Text
