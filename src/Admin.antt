-- ===== src/Admin.antt =====
-- internal/admin/server.go. Children: the change of the configuration (`Update`), the bodies of the
-- requests (`Body`), the simulated login (`Simulate`), and the configuration as
-- it is shown (`Summary`).
pub mod Update
pub mod Body
pub mod Simulate
pub mod Summary
