-- ===== src/Docs.antt =====
-- docs: the scripts of the published documentation, which run in its pages.
pub mod Text
pub mod Ids
pub mod Dom
pub mod SearchResults
pub mod SearchData
pub mod Position
pub mod SearchBox
pub mod DynSections
pub mod Menu
pub mod Tests
