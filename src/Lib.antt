-- ===== src/Lib.antt =====
-- The WHMCS login plugin for Silo: sign-in through a WHMCS billing system's OAuth endpoints, gated by the
-- products that a client owns there.
--
-- The host starts the plugin, sends it a configuration (Configure) and asks it for logins (InitAuthorize,
-- ExchangeCode, RefreshSession); admins change the configuration over HTTP. The configuration is
-- validated, kept in one row of a database, and held in memory, where each login reads it. A login
-- exchanges a code for a token, fetches the user, and, where products, roles or a Discord id are
-- configured, asks the admin API of WHMCS for the client's products and details.
--
-- The modules and the code they stand for:
--   Text, Decimal, Json     what the plugin uses of Go's strings, strconv and encoding/json
--   Runtime.Address, .Url   isInternalIP, isLocalhost, validateServerURL  (internal/runtime/runtime.go)
--   Runtime.Config          Config, ValidateConfig, parsePositiveID       (internal/runtime/runtime.go)
--   Runtime.Load            loadConfig, parseClaimRoleMapping             (internal/runtime/runtime.go)
--   Store                   Migrate, GetConfig, UpdateConfig,
--                           ImportLegacyConfig                            (internal/store/store.go)
--   Whmcs.Http, .Oauth      doForm, BuildAuthorizeURL, ExchangeCode,
--                           RefreshAccessToken, FetchUserInfo             (internal/whmcs/oauth.go)
--   Whmcs.Pkce              GeneratePKCE                                  (internal/whmcs/oauth.go)
--   Whmcs.Retry             retry, backoffDelay                           (internal/whmcs/retry.go)
--   Whmcs.Entitlements      EntitlementResolver                           (internal/whmcs/entitlements.go)
--   Whmcs.Storm             EntitlementResolver with many callers         (internal/whmcs/entitlements.go)
--   Whmcs.Cache             ProductCache                                  (internal/whmcs/cache.go)
--   Whmcs.Herd              ProductCache with many callers                (internal/whmcs/cache.go)
--   Whmcs.Types, .Rows,
--   .Api, .Details          APIClient and its decoding                    (internal/whmcs/api.go)
--   Auth.Products           ActiveProductIDs, AnyMatch, RoleFromProducts  (internal/auth/server.go)
--   Auth.Respond            buildResponse, audit                          (internal/auth/server.go)
--   Auth.Server             Authenticate, InitAuthorize, ExchangeCode,
--                           RefreshSession, entitlementAPI                (internal/auth/server.go)
--   Admin.Update            the changes of HandleUpdateConfig             (internal/admin/server.go)
--   Admin.Body              the bodies of its two requests                (internal/admin/server.go)
--   Admin.Simulate          HandleSimulateLogin                           (internal/admin/server.go)
--   Admin.Summary           HandleConfigSummary                           (internal/admin/server.go)
--   Server.Requests,
--   .Handlers               the other handlers of the admin server        (internal/admin/server.go)
--   Server.Routes           Handler, RequireAdmin                         (internal/server/server.go,
--                                                                          internal/admin/server.go)
--   Server.Assets           handleAssets, setContentTypeByExt             (internal/server/server.go,
--                                                                          internal/server/mime.go)
--   Server.Page, .Href      handleSPA, computeBaseHref          (internal/server/prerender_handler.go)
--   Server.Bridge           SetHandler, Handle                            (internal/httproutes/server.go)
--   Main                    the callbacks, and Configure                  (cmd/silo-plugin-whmcs-login/main.go,
--                                                                          internal/runtime/runtime.go)
--   Main.Manifest           loadManifest                          (cmd/silo-plugin-whmcs-login/main.go)
--   Main.Overlap            UpdateConfigFn for many admins        (cmd/silo-plugin-whmcs-login/main.go)
--   Main.Pool               the pools of connections              (cmd/silo-plugin-whmcs-login/main.go)
--   Main.Resolver           entitlementClient, SetAPIFn           (cmd/silo-plugin-whmcs-login/main.go)
--   Server.Life             configurations and requests, in any order     (cmd/silo-plugin-whmcs-login/main.go)
--   Examples                concrete inputs
--
-- Code that changes something is a step (Prelude.Steps): from a state to a result or an error and the
-- state after it, which an error does not undo. The state of a login is that of the outside world and the
-- audit lines; that of the store is the row and which of the next queries fail; that of the process is
-- what the atomic pointers of main hold, with the pools that are open; that of the HTTP surface is all of
-- these with the product cache. Two steps never overlap, but in Whmcs.Storm a lookup, in Whmcs.Herd a read
-- or a refresh of the product cache, and in Main.Overlap a change of the configuration, is many steps, and
-- those of the callers come in any order; there the state also records what the API has answered, what has
-- been noted and which flights have landed, which the program does not keep.
--
-- Parameters, for what is not in the repository: Platform (url.Parse, net.ParseIP, net.LookupIP, whose
-- answer to the second validation of a Configure may differ from that to the first but is the same in each
-- of several steps, and the syntax of JSON texts), World (the network, the clock, the context, the random numbers), Pools (whether a
-- database URL is accepted), ApiSource and EntitlementApi (the client of the admin API as the login flow
-- sees it), Texts (the folding of letters beyond ASCII, the text of a JSON value), which code points
-- beyond ASCII may stand in a name of a template, Joins (which flight a call of singleflight joins),
-- Machine (the SDK's manifest, the executable and its checksum), the random bytes and the digest of
-- GeneratePKCE, the router chi (which entry of the table it picks), the file systems (WebFiles), and
-- HttpLibrary (net/url and net/http/httptest).
--
-- Numbers: int is 64 bits, so Decimal reads no number beyond that range; the shift of the backoff is taken
-- modulo 2^64. Fuel: a read of the store calls itself once at most, after it has made the row, so get_fuel
-- is 2; the decimal form of n takes n + 1 rounds at most. Texts are sequences of code points; the errors
-- of structpb on texts that are no UTF-8 have no counterpart.
--
-- Not modelled: the printing of answers as JSON, the recovery from panics, http.ServeContent, logging for
-- debugging, the serving loop of main, and the web application.
pub mod Prelude
pub mod Text
pub mod Decimal
pub mod Json
pub mod Runtime
pub mod Store
pub mod Whmcs
pub mod Auth
pub mod Admin
pub mod Main
pub mod Server
mod Examples
