-- ===== src/Model.antt =====
-- Which data of an actor's model is to be saved (internal/infra/actor/model).
pub mod Dirty
pub mod Modules
mod Samples
