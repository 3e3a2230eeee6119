-- ===== src/Whmcs/Oauth/Laws.antt =====
-- What the answers that are accepted are like.
use continuum_plugin_whmcs_l.Prelude.{
  ℕ, ◌<◌, true, Option, ok, ◌≡◌, ◌≢◌, ◌⊎◌, arith, eq_iff, Option-cases, inl, inr,
}
use continuum_plugin_whmcs_l.Text.{trim_space, equal_fold}
use continuum_plugin_whmcs_l.Text.Laws.{trim_space_idem}
use continuum_plugin_whmcs_l.Json.{Value, unmarshal}
use continuum_plugin_whmcs_l.Whmcs.Http.{Operation}
use continuum_plugin_whmcs_l.Whmcs.Oauth.{
  TokenResponse, no_token, token_members, trimmed_token, check_token, read_token, UserInfo, no_user,
  user_members, read_user,
}

pub record IsUsableToken (t : TokenResponse) : Type 0 where
  pub present : t.access_token ≢ ""
  pub trimmed : trim_space t.access_token ≡ t.access_token
  pub refresh_trimmed : trim_space t.refresh_token ≡ t.refresh_token
  pub bearer : (t.token_type ≡ "") ⊎ (equal_fold t.token_type "Bearer" ≡ true)

check_token-IsUsableToken :
    (op : Operation) (t u : TokenResponse)
    → check_token op (trimmed_token t) ≡ ok u
    → IsUsableToken u
check_token-IsUsableToken op t u h = record {
  present = ground (arith, eq_iff (trim_space t.access_token) "");
  trimmed = ground (arith, trim_space_idem t.access_token);
  refresh_trimmed = ground (arith, trim_space_idem t.refresh_token);
  bearer = ground (arith, eq_iff (trim_space t.token_type) "");
}

-- A token that is accepted came with a status below 400; its access token is not empty and, as its
-- refresh token, has no space at either end; and its type is "Bearer", in any case, or missing.
pub read_token_sound :
    (op : Operation) (code : ℕ) (body : Option Value) (t : TokenResponse)
    → read_token op (code, body) ≡ ok t
    → (code < 400) × IsUsableToken t
unfolding read_token
read_token_sound op code body t h = elim (Option-cases (unmarshal token_members no_token body)) [
  | inl bad ↦ ground arith
  | inr (raw, e) ↦ (ground arith, check_token-IsUsableToken op raw t (ground arith))
]

-- Userinfo that is accepted came with a status below 400, and its subject is not empty.
pub read_user_sound :
    (code : ℕ) (body : Option Value) (u : UserInfo)
    → read_user (code, body) ≡ ok u
    → (code < 400) × (u.sub ≢ "")
unfolding read_user
read_user_sound code body u h = elim (Option-cases (unmarshal user_members no_user body)) [
  | inl bad ↦ ground arith
  | inr (raw, e) ↦
      (ground arith, ground (arith, eq_iff (trim_space raw.sub) "", eq_iff (trim_space raw.id) ""))
]
