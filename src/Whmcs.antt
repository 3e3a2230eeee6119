-- ===== src/Whmcs.antt =====
-- internal/whmcs: the clients of a WHMCS installation. Children: what the program sends and gets
-- (`Http`), the OAuth endpoints (`Oauth`), the data of the admin API (`Types`), the retries of a call
-- (`Retry`), the calls of the admin API (`Rows`, `Api`, `Details`), the cache of negative answers
-- (`Entitlements`, and with many callers `Storm`) and that of the products (`Cache`, and with many
-- callers `Herd`).
pub mod Http
pub mod Oauth
pub mod Pkce
pub mod Types
pub mod Retry
pub mod Entitlements
pub mod Storm
pub mod Cache
pub mod Herd
pub mod Rows
pub mod Api
pub mod Details
