-- ===== src/Dispatcher.antt =====
-- The dispatcher package (dispatcher/dispatcher.go).
pub mod Config
pub mod Mask
