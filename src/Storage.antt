-- ===== src/Storage.antt =====
-- Pages, files and the page cache: komfydb/storage.
pub mod Header
pub mod Ids
pub mod Codec
pub mod HeapPage
pub mod HeapFile
pub mod Catalog
pub mod BufferPool
pub mod TableIterator
