-- ===== src/TianyaList.antt =====
-- libtianya/src/tianya_list.cpp, libtianya/include/tianya_list.hpp: the reader of the board.
pub mod Serialize
pub mod Columns
pub mod FileTests
pub mod Info
pub mod Multimap
pub mod Machine
pub mod Session
pub mod Board
pub mod Change
pub mod Invariant
pub mod Progress
pub mod Row
pub mod ReadRow
pub mod Tests
