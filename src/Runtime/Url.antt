-- ===== src/Runtime/Url.antt =====
-- `validateServerURL` and `isLocalhost` (internal/runtime/runtime.go).
pub mod Safe
use continuum_plugin_whmcs_l.Prelude.{
  String, Bool, true, false, ◌&&◌, ◌||◌, not, List, Option, none, some, any, ◌==◌, Result, ok, err,
  if◌then◌else◌,
}
use continuum_plugin_whmcs_l.Text.{equal_fold}
use continuum_plugin_whmcs_l.Json.{Value}
use continuum_plugin_whmcs_l.Runtime.Address.{Ip, is_loopback, is_internal_ip}

-- What `url.Parse` gives; `hostname` is the host without port and brackets. The program does not look at
-- `path`.
pub record Url : Type 0 where
  pub scheme : String
  pub host : String
  pub hostname : String
  pub path : String
  pub has_user : Bool
  pub raw_query : String
  pub fragment : String

-- The parsers and the resolver of Go's library, which the program only calls: `url.Parse`,
-- `net.ParseIP`, `net.LookupIP` and the syntax of JSON texts. The resolver may answer differently each time
-- it is asked: `lookup_ip` is its answer to a validation, and `lookup_again` that to a second validation in
-- the same `Configure`. Where a statement is about several steps, a `Platform` takes these answers to be the
-- same in each of them.
pub record Platform : Type 0 where
  pub parse_url : String → Option Url
  pub parse_ip : String → Option Ip
  pub lookup_ip : String → Option (List Ip)
  pub lookup_again : String → Option (List Ip)
  pub parse_json : String → Option Value

-- The resolver as the second validation asks it.
abbrev pub again : Platform → Platform
again net = record net { lookup_ip = net.lookup_again }

pub data UrlError : Type 0 where
  not_a_url bad_scheme not_an_origin not_https internal_address internal_answer : UrlError

module _ (net : Platform) where
  unfoldable pub is_localhost : String → Bool
  is_localhost host =
      if equal_fold host "localhost"
      then true
      else elim (net.parse_ip host) [ none ↦ false | some ip ↦ is_loopback ip ]

  -- The part below the check of the scheme: the address that the host stands for.
  unfoldable pub check_address : String → Result UrlError (Unit {0})
  check_address host = elim (net.parse_ip host) [
    | some ip ↦ if is_internal_ip ip then err internal_address else ok tt
    | none ↦ elim (net.lookup_ip host) [
      | none ↦ ok tt
      | some ips ↦ if any is_internal_ip ips then err internal_answer else ok tt
    ]
  ]

  unfoldable pub check_url : Url → Result UrlError (Unit {0})
  check_url u =
      if not (u.scheme == "https") && not (u.scheme == "http")
      then err bad_scheme
      else if u.host == "" || u.has_user || not (u.raw_query == "") || not (u.fragment == "")
      then err not_an_origin
      else if u.scheme == "http" && not (is_localhost u.hostname)
      then err not_https
      else if is_localhost u.hostname
      then ok tt
      else check_address u.hostname

  unfoldable pub validate_server_url : String → Result UrlError (Unit {0})
  validate_server_url raw = elim (net.parse_url raw) [ none ↦ err not_a_url | some u ↦ check_url u ]
