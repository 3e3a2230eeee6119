-- ===== src/Main/Overlap/Secrets.antt =====
-- What becomes of the secrets that the host injects, when changes overlap.
use continuum_plugin_whmcs_l.Prelude.{ℕ, err, false, update-cases, ◌≡◌, inl, inr}
use continuum_plugin_whmcs_l.Runtime.Url.{Platform}
use continuum_plugin_whmcs_l.Admin.Update.{apply_patch}
use continuum_plugin_whmcs_l.Store.{Db}
use continuum_plugin_whmcs_l.Store.Clean.{IsClean}
use continuum_plugin_whmcs_l.Whmcs.Http.{World}
use continuum_plugin_whmcs_l.Auth.Types.{not_configured, ExchangeRequest, RefreshRequest}
use continuum_plugin_whmcs_l.Auth.Respond.{Session}
use continuum_plugin_whmcs_l.Auth.Server.{ApiSource, exchange_code, refresh_session}
use continuum_plugin_whmcs_l.Main.Pool.{no_pools}
use continuum_plugin_whmcs_l.Main.{start, live_config, System, Pools}
use continuum_plugin_whmcs_l.Main.Secrets.{
  HasNoSecret, LacksSecrets, apply_config-HasNoSecret, saved-Ensures, configure-Ensures,
  start-HasNoSecret, HasNoSecret-not_configured,
}
use continuum_plugin_whmcs_l.Main.Overlap.{
  Edit, resting, merged, saved, Changes, quiet, Act, merges, refused, fails, saves, applies, Step,
  acts, configured, Reach, here, more,
}

abbrev EditLacksSecrets : Edit → Type 0
EditLacksSecrets resting = Unit
EditLacksSecrets (merged next) = LacksSecrets next
EditLacksSecrets (saved cfg) = LacksSecrets cfg

record IsBare (f : Changes) : Type 0 where
  bare : HasNoSecret f.system
  edits : (i : ℕ) → EditLacksSecrets (f.edit i)

module _ (net : Platform) (pools : Pools) where
  Act-IsBare :
      {s t : System} {e d : Edit}
      → Act net pools s e t d
      → HasNoSecret s
      → EditLacksSecrets e
      → HasNoSecret t × EditLacksSecrets d
  unfolding apply_patch
  Act-IsBare (merges req) v h = (v, record { client = v.client_secret; api = v.api_secret })
  Act-IsBare (refused none_yet) v h = (v, tt)
  Act-IsBare {s} (fails {next} store failed) v h = (
    record {
      clean = (saved-Ensures net next h).kept s.db v.clean;
      client_secret = v.client_secret;
      api_secret = v.api_secret;
      no_api = v.no_api;
    },
    tt,
  )
  Act-IsBare {s} (saves {next} {cfg} store done) v h = (
    record {
      clean = (saved-Ensures net next h).kept s.db v.clean;
      client_secret = v.client_secret;
      api_secret = v.api_secret;
      no_api = v.no_api;
    },
    (saved-Ensures net next h).result s.db v.clean cfg done,
  )
  Act-IsBare {s} (applies {cfg}) v h = (apply_config-HasNoSecret cfg s v h.client h.api, tt)

  Step-IsBare : {f g : Changes} → Step net pools f g → IsBare f → IsBare g
  Step-IsBare {f} (configured entries) v = record {
    bare = (configure-Ensures net pools entries).kept f.system v.bare;
    edits = v.edits;
  }
  Step-IsBare {f} (acts i {e = e} act) v =
      let next = Act-IsBare act v.bare (v.edits i) in
      record {
        bare = next.0;
        edits = λ j. elim (update-cases f.edit i e j) [
          | inl (same, new) ↦ rw new next.1
          | inr (apart, old) ↦ rw old (v.edits j)
        ];
      }

  Reach-IsBare : {f g : Changes} → IsBare f → Reach net pools f g → IsBare g
  Reach-IsBare v here = v
  Reach-IsBare v (more r st) = Step-IsBare st (Reach-IsBare v r)

  -- From a database with no secret in its row, whatever the host configures and the admins change, in any
  -- order and with the steps of the admins' changes mixed: every code exchange and every refresh fails as
  -- not configured and sends nothing, and there is no client of the admin API.
  pub Reach-unconfigured :
      (w : World) (apis : ApiSource w.State) (db : Db) (f : Changes) (req : ExchangeRequest)
      (old : RefreshRequest) (s : Session w.State)
      → IsClean db
      → Reach net pools (quiet (record { process = start; db = db; handles = no_pools })) f
      → let cfg = live_config f.system.process in
        (exchange_code w apis cfg req s ≡ (err not_configured, s))
        × (refresh_session w apis cfg old s ≡ (err not_configured, s))
        × (f.system.process.has_api ≡ false)
  Reach-unconfigured w apis db f req old s clean r =
      let begun : IsBare (quiet _) = record {
        bare = start-HasNoSecret net pools db clean;
        edits = λ i. tt;
      } in
      HasNoSecret-not_configured net pools w apis f.system req old s (Reach-IsBare begun r).bare
