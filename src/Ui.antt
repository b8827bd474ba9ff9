-- ===== src/Ui.antt =====
-- The elements of web/src/components/ui that keep a state of their own.
pub mod Dialog
pub mod ScrollLock
pub mod Select
pub mod Tests
