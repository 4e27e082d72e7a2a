-- ===== src/Callback.antt =====
-- internal/callback: delivering completion callbacks.
pub mod Deliverer
