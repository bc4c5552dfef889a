-- ===== src/Player.antt =====
-- The player's data (internal/infra/actor/model/player).
pub mod Items
mod Samples
