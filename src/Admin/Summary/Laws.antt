-- ===== src/Admin/Summary/Laws.antt =====
-- What the summary shows of a change, and what it hides.
use continuum_plugin_whmcs_l.Prelude.{String, List, [], ◌∷◌, map, some, All, ◌≡◌, refl, ◌==◌}
use continuum_plugin_whmcs_l.Prelude.Int.{ℤ, IsInt}
use continuum_plugin_whmcs_l.Decimal.{itoa}
use continuum_plugin_whmcs_l.Decimal.RoundTrip.{atoi-itoa}
use continuum_plugin_whmcs_l.Runtime.Config.{Config}
use continuum_plugin_whmcs_l.Admin.Update.{Patch, apply_patch}
use continuum_plugin_whmcs_l.Admin.Summary.{int_ids, config_summary}

int_ids-itoa : (ids : List ℤ) → All IsInt ids → int_ids (map itoa ids) ≡ ids
unfolding int_ids
int_ids-itoa [] h = refl
int_ids-itoa (n ∷ ns) h = rw (int_ids, atoi-itoa n h.0, int_ids-itoa ns h.1) refl

-- The product ids that an admin sets, each an `int`, are the ones that the summary of the changed
-- configuration shows, in their order.
pub config_summary-apply_patch :
    (req : Patch) (cfg : Config) (ids : List ℤ)
    → req.allowed_product_ids ≡ some ids
    → All IsInt ids
    → (config_summary (apply_patch req cfg)).allowed_product_ids ≡ ids
unfolding config_summary apply_patch
config_summary-apply_patch req cfg ids given fits = rw given (int_ids-itoa ids fits)

-- Of the two secrets the summary tells no more than whether they are set, and of the database nothing.
pub config_summary_hides :
    (cfg : Config) (database client_secret api_secret : String)
    → (client_secret == "") ≡ (cfg.client_secret == "")
    → (api_secret == "") ≡ (cfg.whmcs_admin_api_secret == "")
    → config_summary (record cfg {
      database_url = database;
      client_secret = client_secret;
      whmcs_admin_api_secret = api_secret;
    })
      ≡ config_summary cfg
unfolding config_summary
config_summary_hides cfg database client_secret api_secret c a = rw (c, a) refl
