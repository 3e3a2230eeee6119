-- ===== src/Main/Manifest/Laws.antt =====
-- What the manifest says when the plugin starts.
use continuum_plugin_whmcs_l.Prelude.{
  String, List, [], ◌∷◌, ◌≡◌, ◌≢◌, ◌⊎◌, inl, inr, refl, sym, ap, ◌∙◌, arith,
}
use continuum_plugin_whmcs_l.Prelude.Results.{Result, ok, Result-cases}
use continuum_plugin_whmcs_l.Main.Manifest.{
  SupportedPlatform, PluginManifest, Machine, with_platform, load_manifest,
}

ok_same : {E A : Type 0} (x y : A) → ◌≡◌ {A = Result E A} (ok x) (ok y) → x ≡ y
ok_same x y h = ground arith

module _ (m : Machine) where
  -- The manifest is the embedded one, with the checksum of the executable that runs and a platform: its
  -- own platforms, or the machine's where it names none.
  pub record IsBuilt (p : PluginManifest m.Rest) : Type 0 where
    pub given : PluginManifest m.Rest
    pub path : String
    pub binary : m.Bytes
    pub loaded : m.embedded ≡ ok given
    pub located : m.executable ≡ ok path
    pub was_read : m.read_file path ≡ ok binary
    pub summed : p.checksum ≡ m.hex_sum binary
    pub same_rest : p.rest ≡ given.rest
    pub platforms :
        ((given.supported_platforms ≢ []) × (p.supported_platforms ≡ given.supported_platforms))
        ⊎ ((given.supported_platforms ≡ []) × (p.supported_platforms ≡ m.here ∷ []))

  platform-cases :
      (given : PluginManifest m.Rest) (ps : List SupportedPlatform)
      → ps ≡ given.supported_platforms
      → ((ps ≢ []) × ((with_platform m given).supported_platforms ≡ ps))
        ⊎ ((ps ≡ []) × ((with_platform m given).supported_platforms ≡ m.here ∷ []))
  platform-cases given [] e = inr (refl, rw (← e) refl)
  platform-cases given (x ∷ xs) e = inl (λ h. cc, rw (← e) refl)

  rest-with_platform :
      (given : PluginManifest m.Rest) (ps : List SupportedPlatform)
      → ps ≡ given.supported_platforms
      → ((with_platform m given).rest ≡ given.rest)
        × ((with_platform m given).checksum ≡ given.checksum)
  rest-with_platform given [] e = rw (← e) (refl, refl)
  rest-with_platform given (x ∷ xs) e = rw (← e) (refl, refl)

  -- A start that gets a manifest gets the embedded one, with the checksum of the executable that runs, and
  -- with its own platforms, or the machine's where it names none.
  pub load_manifest-IsBuilt : (p : PluginManifest m.Rest) → load_manifest m ≡ ok p → IsBuilt p
  unfolding load_manifest
  load_manifest-IsBuilt p h = elim (Result-cases m.embedded) [
    | inr (e, failed) ↦ absurd (let f = rw failed at h in cc)
    | inl (given, loaded) ↦ elim (Result-cases m.executable) [
      | inr (e, failed) ↦ absurd (let f = rw (loaded, failed) at h in cc)
      | inl (path, located) ↦ elim (Result-cases (m.read_file path)) [
        | inr (e, failed) ↦ absurd (let f = rw (loaded, located, failed) at h in cc)
        | inl (binary, was_read) ↦
            let summed : PluginManifest m.Rest = record given { checksum = m.hex_sum binary } in
            let same : with_platform m summed ≡ p =
              ok_same _ _ (rw (loaded, located, was_read) at h) in
            let (rest, sum) = rest-with_platform summed given.supported_platforms refl in
            record {
              given = given;
              path = path;
              binary = binary;
              loaded = loaded;
              located = located;
              was_read = was_read;
              summed = ap (λ q. q.checksum) (sym same) ∙ sum;
              same_rest = ap (λ q. q.rest) (sym same) ∙ rest;
              platforms = elim (platform-cases summed given.supported_platforms refl) [
                | inl (full, own) ↦ inl (full, ap (λ q. q.supported_platforms) (sym same) ∙ own)
                | inr (bare, this) ↦ inr (bare, ap (λ q. q.supported_platforms) (sym same) ∙ this)
              ];
            }
      ]
    ]
  ]
