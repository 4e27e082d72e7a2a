-- ===== src/Notify.antt =====
-- internal/notify.
pub mod Hub
