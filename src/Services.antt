-- ===== src/Services.antt =====
-- services: the game, user and configuration services.
pub mod Game
pub mod User
pub mod Config
pub mod Answering
