-- ===== src/Auth.antt =====
-- internal/auth/server.go: the auth provider. Children: the entitlement tests (`Products`), the data
-- of requests, answers and audit lines (`Types`), the entitlement evaluation (`Respond`), the calls of
-- the host (`Server`), and their proofs.
pub mod Products
pub mod Types
pub mod Respond
pub mod Server
