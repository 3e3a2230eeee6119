-- ===== src/Whmcs/Pkce.antt =====
-- `GeneratePKCE` (internal/whmcs/oauth.go), on bytes and code points.
pub mod Bounds
use continuum_plugin_whmcs_l.Prelude.{
  ℕ, ◌+◌, ◌-◌, ◌*◌, ◌/◌, ◌%◌, List, [], ◌∷◌, Option, none, some, ltb, if◌then◌else◌,
}

-- The URL-safe alphabet of base64, at a number below 64.
unfoldable pub sextet : ℕ → ℕ
sextet n =
    if ltb n 26
    then n + b'A'
    else if ltb n 52
    then n - 26 + b'a'
    else if ltb n 62
    then n - 52 + b'0'
    else if ltb n 63
    then b'-'
    else b'_'

-- `base64.RawURLEncoding.EncodeToString`
unfoldable pub raw_url : List ℕ → List ℕ
unfolding sextet
raw_url [] = []
raw_url (a ∷ []) = sextet (a / 4) ∷ sextet (a % 4 * 16) ∷ []
raw_url (a ∷ b ∷ []) = sextet (a / 4) ∷ sextet (a % 4 * 16 + b / 16) ∷ sextet (b % 16 * 4) ∷ []
raw_url (a ∷ b ∷ c ∷ bytes) =
    sextet (a / 4)
    ∷ sextet (a % 4 * 16 + b / 16)
    ∷ sextet (b % 16 * 4 + c / 64)
    ∷ sextet (c % 64)
    ∷ raw_url bytes

-- The verifier and its challenge.
pub record Pkce : Type 0 where
  pub verifier : List ℕ
  pub challenge : List ℕ

-- The random bytes are what `rand.Read` gives, if it gives any; `sha256` is `sha256.Sum256`.
unfoldable pub generate_pkce : (List ℕ → List ℕ) → Option (List ℕ) → Option Pkce
unfolding raw_url
generate_pkce sha256 none = none
generate_pkce sha256 (some bytes) =
    some (record { verifier = raw_url bytes; challenge = raw_url (sha256 (raw_url bytes)) })
