-- ===== src/Runtime.antt =====
-- internal/runtime/runtime.go: the configuration and its validation. Children: the addresses that a
-- server may not have (`Address`), the server's URL (`Url`), the host's payload (`Load`), and the
-- proofs about validation (`Valid`).
pub mod Address
pub mod Url
pub mod Config
pub mod Load
pub mod Spelling
pub mod Valid
