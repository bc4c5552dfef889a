-- ===== src/Mongo.antt =====
-- The indexes of the collections (internal/infra/mongo/models/indexes.go) and the consumers of
-- finished operations (internal/infra/mongobd/mongobd.go).
pub mod Indexes
pub mod Consumers
mod Samples
