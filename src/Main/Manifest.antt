-- ===== src/Main/Manifest.antt =====
-- `loadManifest` and the start of `main` (cmd/silo-plugin-whmcs-login/main.go), and what the runtime
-- server (internal/runtime/runtime.go) says of itself. The manifest of the SDK, the executable on the disk
-- and the checksum are the host's.
pub mod Laws
use continuum_plugin_whmcs_l.Prelude.{String, List, [], ◌∷◌, is_empty, if◌then◌else◌}
use continuum_plugin_whmcs_l.Prelude.Results.{Result, ok, err, map_err, ◌>>=◌}

-- An operating system and an architecture.
pub record SupportedPlatform : Type 0 where
  pub os : String
  pub arch : String

-- A `PluginManifest`, with what the plugin does not look at as `rest`.
pub record PluginManifest (R : Type 0) : Type 0 where
  pub rest : R
  pub checksum : String
  pub supported_platforms : List SupportedPlatform

-- What the start asks for: `publicmanifest.Load` of the embedded bytes, `os.Executable`, `os.ReadFile`,
-- `sha256.Sum256` with `hex.EncodeToString`, and `runtime.GOOS` and `GOARCH`.
pub record Machine : Type 1 where
  pub Rest : Type 0
  pub Bytes : Type 0
  pub Failure : Type 0
  pub embedded : Result Failure (PluginManifest Rest)
  pub executable : Result Failure String
  pub read_file : String → Result Failure Bytes
  pub hex_sum : Bytes → String
  pub here : SupportedPlatform

pub data StartError (E : Type 0) : Type 0 where
  no_manifest no_executable : E → StartError E
  unreadable : String → E → StartError E

module _ (m : Machine) where
  abbrev pub with_platform : PluginManifest m.Rest → PluginManifest m.Rest
  with_platform p =
      if is_empty p.supported_platforms then record p { supported_platforms = m.here ∷ [] } else p

  unfoldable pub load_manifest : Result (StartError m.Failure) (PluginManifest m.Rest)
  load_manifest = do
    manifest ← map_err no_manifest m.embedded
    path ← map_err no_executable m.executable
    binary ← map_err (unreadable path) (m.read_file path)
    ok (with_platform (record manifest { checksum = m.hex_sum binary }))
