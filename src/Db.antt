-- ===== src/Db.antt =====
-- The collections of apps/server/src/models, as one state. A collection is the list of its
-- documents in the order of their creation, so that a sort by `createdAt` is that order. A land is
-- identified by its `landId`, which has a unique index, and a document of another collection by
-- the number that stands for its ObjectId.
mod Documents
mod Queries
unfoldable pub use Documents.*
unfoldable pub use Queries.*
