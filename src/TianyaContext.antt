-- ===== src/TianyaContext.antt =====
-- libtianya/include/tianya_context.hpp: the download of one post, page by page.
pub mod Machine
pub mod Session
pub mod Grows
pub mod Collect
pub mod Complete
pub mod Post
pub mod Posts
pub mod Paging
pub mod PagingTests
pub mod Count
pub mod Thread
pub mod Tests
