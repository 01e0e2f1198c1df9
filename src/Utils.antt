-- ===== src/Utils.antt =====
-- pkg/utils: the book of running routines, and lists of validator indices.
pub mod Book
pub mod BookTokens
pub mod Batches
pub mod BatchesCover
pub mod Others
