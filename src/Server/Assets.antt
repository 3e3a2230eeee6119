-- ===== src/Server/Assets.antt =====
-- `handleAssets` (internal/server/server.go) and `setContentTypeByExt` (internal/server/mime.go).
use continuum_plugin_whmcs_l.Prelude.{
  ℕ, String, ◌<>◌, List, Option, none, some, ◌==◌, if◌then◌else◌,
}
use continuum_plugin_whmcs_l.Text.{trim_prefix, has_suffix}
use continuum_plugin_whmcs_l.Server.Requests.{
  HttpRequest, File, WebFiles, AssetReply, no_asset, bundle_file, static_file,
}

-- `setContentTypeByExt`: the header it sets, if any.
unfoldable pub content_type_by_ext : String → Option String
unfolding has_suffix
content_type_by_ext path =
    if has_suffix ".svg" path
    then some "image/svg+xml"
    else if has_suffix ".png" path
    then some "image/png"
    else if has_suffix ".css" path
    then some "text/css; charset=utf-8"
    else if has_suffix ".js" path
    then some "application/javascript; charset=utf-8"
    else if has_suffix ".json" path
    then some "application/json; charset=utf-8"
    else none

-- `s.deps.SPAFiles.Open(name)`, where the bundle is there.
abbrev pub open_bundle : WebFiles → String → Option File
open_bundle files name = elim files.spa_files [ none ↦ none | some opens ↦ opens name ]

abbrev pub read_static : WebFiles → String → Option (List ℕ)
read_static files rel =
    if files.static_root == "" then none else files.static_files (files.static_root <> ("/" <> rel))

unfoldable pub handle_assets : WebFiles → HttpRequest → AssetReply
unfolding trim_prefix content_type_by_ext
handle_assets files r =
    let rel = trim_prefix "/assets/" r.path in
    if rel == "" then no_asset else elim (open_bundle files ("/assets/" <> rel)) [
      | some f ↦ bundle_file rel f
      | none ↦ elim (read_static files rel) [
        | some data_read ↦ static_file (content_type_by_ext rel) data_read
        | none ↦ no_asset
      ]
    ]
