-- ===== src/Ui.antt =====
-- The user interface without its drawing: src/core and src/view_models.
pub mod Router
pub mod ViewModel
pub mod App
