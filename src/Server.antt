-- ===== src/Server.antt =====
-- internal/server: the HTTP surface of the plugin. Children: requests and answers (`Requests`), the admin
-- server's handlers (`Handlers`), the files (`Assets`), the page (`Page`) and its base (`Href`), the table of
-- routes (`Routes`), the life of the plugin (`Life`), and the bridge from the host's messages (`Bridge`, internal/httproutes).
pub mod Requests
pub mod Handlers
pub mod Href
pub mod Assets
pub mod Page
pub mod Routes
pub mod Bridge
pub mod Life
