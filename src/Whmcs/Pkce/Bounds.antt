-- ===== src/Whmcs/Pkce/Bounds.antt =====
-- The lengths and the characters of what base64 makes of bytes.
use continuum_plugin_whmcs_l.Prelude.{
  ℕ, ◌+◌, ◌*◌, ◌/◌, ◌%◌, ◌<◌, ◌≤◌, Bool, true, ◌||◌, ◌&&◌, List, [], ◌∷◌, some, length, leb, eqb,
  All, ◌≡◌, refl, arith,
}
use continuum_plugin_whmcs_l.Whmcs.Pkce.{sextet, raw_url, Pkce, generate_pkce}

-- The unreserved characters of a URL that a verifier may have (RFC 7636), less "." and "~".
abbrev pub is_url_safe : ℕ → Bool
is_url_safe c =
    leb b'A' c && leb c b'Z'
    || leb b'a' c && leb c b'z'
    || leb b'0' c && leb c b'9'
    || eqb c b'-'
    || eqb c b'_'

abbrev pub IsUrlSafe : ℕ → Type 0
IsUrlSafe c = is_url_safe c ≡ true

abbrev pub IsByte : ℕ → Type 0
IsByte b = b < 256

sextet-IsUrlSafe : (n : ℕ) → n < 64 → IsUrlSafe (sextet n)
unfolding sextet
sextet-IsUrlSafe n small = ground arith

raw_url-IsUrlSafe : (bytes : List ℕ) → All IsByte bytes → All IsUrlSafe (raw_url bytes)
unfolding raw_url
raw_url-IsUrlSafe [] h = tt
raw_url-IsUrlSafe (a ∷ []) (ha, h) =
    (sextet-IsUrlSafe (a / 4) (omega arith), (sextet-IsUrlSafe (a % 4 * 16) (omega arith), tt))
raw_url-IsUrlSafe (a ∷ b ∷ []) (ha, (hb, h)) = (
  sextet-IsUrlSafe (a / 4) (omega arith),
  (
    sextet-IsUrlSafe (a % 4 * 16 + b / 16) (omega arith),
    (sextet-IsUrlSafe (b % 16 * 4) (omega arith), tt),
  ),
)
raw_url-IsUrlSafe (a ∷ b ∷ c ∷ bytes) (ha, (hb, (hc, h))) = (
  sextet-IsUrlSafe (a / 4) (omega arith),
  (
    sextet-IsUrlSafe (a % 4 * 16 + b / 16) (omega arith),
    (
      sextet-IsUrlSafe (b % 16 * 4 + c / 64) (omega arith),
      (sextet-IsUrlSafe (c % 64) (omega arith), raw_url-IsUrlSafe bytes h),
    ),
  ),
)

length-raw_url :
    (bytes : List ℕ)
    → (4 * length bytes ≤ 3 * length (raw_url bytes))
      × (3 * length (raw_url bytes) ≤ 4 * length bytes + 2)
unfolding raw_url
length-raw_url [] = (omega arith, omega arith)
length-raw_url (a ∷ []) = (omega arith, omega arith)
length-raw_url (a ∷ b ∷ []) = (omega arith, omega arith)
length-raw_url (a ∷ b ∷ c ∷ bytes) =
    let (low, high) = length-raw_url bytes in (omega arith, omega arith)

-- From 48 random bytes, with a digest of 32 bytes, there are a verifier of 64 characters and a challenge
-- of 43, all of them safe in a URL.
pub generate_pkce_bounds :
    (sha256 : List ℕ → List ℕ) (bytes : List ℕ)
    → length bytes ≡ 48
    → All IsByte bytes
    → ((message : List ℕ) → (length (sha256 message) ≡ 32) × All IsByte (sha256 message))
    → (p : Pkce) × (generate_pkce sha256 (some bytes) ≡ some p)
      × (length p.verifier ≡ 64)
      × All IsUrlSafe p.verifier
      × (length p.challenge ≡ 43)
      × All IsUrlSafe p.challenge
unfolding generate_pkce
generate_pkce_bounds sha256 bytes long small digest =
    let (size, in_range) = digest (raw_url bytes) in
    let (low, high) = length-raw_url bytes in
    let (low_digest, high_digest) = length-raw_url (sha256 (raw_url bytes)) in
    (
      record { verifier = raw_url bytes; challenge = raw_url (sha256 (raw_url bytes)) },
      refl,
      omega arith,
      raw_url-IsUrlSafe bytes small,
      omega arith,
      raw_url-IsUrlSafe (sha256 (raw_url bytes)) in_range,
    )
