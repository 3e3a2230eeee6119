-- ===== src/Runtime/Url/Safe.antt =====
-- What a server URL that passes the validation is.
use continuum_plugin_whmcs_l.Prelude.{
  String, true, false, List, [], ◌∷◌, none, some, any, All, ok, ◌≡◌, ◌≢◌, ◌⊎◌, inl, inr, arith,
  eq_iff, Bool-cases, Option-cases,
}
use continuum_plugin_whmcs_l.Runtime.Address.{Ip, is_internal_ip}
use continuum_plugin_whmcs_l.Runtime.Url.{
  Url, Platform, is_localhost, check_address, check_url, validate_server_url,
}

module _ (net : Platform) where
  -- No address is internal that the host is or, if it is a name, resolves to.
  pub data IsExternal (host : String) : Type 0 where
    literal : (ip : Ip) → net.parse_ip host ≡ some ip → is_internal_ip ip ≡ false → IsExternal host
    unresolved : net.parse_ip host ≡ none → net.lookup_ip host ≡ none → IsExternal host
    resolved :
        (ips : List Ip)
        → net.parse_ip host ≡ none
        → net.lookup_ip host ≡ some ips
        → All (λ ip. is_internal_ip ip ≡ false) ips
        → IsExternal host

  pub record IsSafeUrl (u : Url) : Type 0 where
    pub has_host : u.host ≢ ""
    pub no_user : u.has_user ≡ false
    pub no_query : u.raw_query ≡ ""
    pub no_fragment : u.fragment ≡ ""
    pub scheme : (u.scheme ≡ "https") ⊎ ((u.scheme ≡ "http") × (is_localhost net u.hostname ≡ true))
    pub address : (is_localhost net u.hostname ≡ true) ⊎ IsExternal u.hostname

  All-any :
      (ips : List Ip) → any is_internal_ip ips ≡ false → All (λ ip. is_internal_ip ip ≡ false) ips
  All-any [] h = tt
  All-any (ip ∷ ips) h = (ground arith, All-any ips (ground arith))

  check_address-IsExternal : (host : String) → check_address net host ≡ ok tt → IsExternal host
  unfolding check_address
  check_address-IsExternal host h = elim (Option-cases (net.parse_ip host)) [
    | inr (ip, e) ↦ literal ip e (ground arith)
    | inl name ↦ elim (Option-cases (net.lookup_ip host)) [
      | inl unknown ↦ unresolved name unknown
      | inr (ips, f) ↦ resolved ips name f (All-any ips (ground arith))
    ]
  ]

  pub check_url-IsSafeUrl : (u : Url) → check_url net u ≡ ok tt → IsSafeUrl u
  unfolding check_url
  check_url-IsSafeUrl u h = record {
    has_host = ground (arith, eq_iff u.host "");
    no_user = ground arith;
    no_query = ground (arith, eq_iff u.raw_query "");
    no_fragment = ground (arith, eq_iff u.fragment "");
    scheme = ground (arith, eq_iff u.scheme "https", eq_iff u.scheme "http");
    address = elim (Bool-cases (is_localhost net u.hostname)) [
      | inl local ↦ inl local
      | inr remote ↦ inr (check_address-IsExternal u.hostname (ground arith))
    ];
  }

  -- A server URL that passes has a host and no credentials, query or fragment; it is https, or http to
  -- the local host; and unless its host is the local one, no address is internal that the host is, or that
  -- it resolves to when the validation asks. Its path may be anything.
  pub validate_server_url_safe :
      (raw : String)
      → validate_server_url net raw ≡ ok tt
      → (u : Url) × (net.parse_url raw ≡ some u) × IsSafeUrl u
  unfolding validate_server_url
  validate_server_url_safe raw h = elim (Option-cases (net.parse_url raw)) [
    | inl bad ↦ ground arith
    | inr (u, e) ↦ (u, e, check_url-IsSafeUrl u (ground arith))
  ]
