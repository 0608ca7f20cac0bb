-- ===== src/Api/Session/Tests.antt =====
-- An address behind two proxies, and the roles of a viewer.
use tgproxy_panel.Prelude.{◌≡◌, refl, true, false, none, some, [], ◌∷◌, ◌==◌, nat_eq, string_eq}
use tgproxy_panel.Api.TokenPolicy.{Principal, role_admin, role_owner, role_viewer}
use tgproxy_panel.Api.Session.{
  Addresses, after_last_comma, client_ip, forbidden, forwarded_ip, last_of, passed, remote_host,
  require_auth, require_role, unauthorized,
}

abbrev plain : Addresses
plain = record { host_of = λ s. none; is_ip = λ s. s == "10.0.0.2"; trim_space = λ s. s }

addresses :
    (client_ip plain true ("1.2.3.4,10.0.0.2" ∷ []) "10.0.0.9" ≡ "10.0.0.2")
    × (client_ip plain true ("1.2.3.4" ∷ []) "10.0.0.9" ≡ "10.0.0.9")
    × (client_ip plain false ("10.0.0.2" ∷ []) "10.0.0.9" ≡ "10.0.0.9")
unfolding client_ip forwarded_ip remote_host last_of after_last_comma
addresses = (refl, refl, refl)

abbrev a_viewer : Principal
a_viewer = record { role = "viewer"; is_token = false; scopes = [] }

guards :
    (require_role (role_owner ∷ role_admin ∷ []) (some a_viewer) ≡ forbidden)
    × (require_role (role_viewer ∷ []) (some a_viewer) ≡ passed)
    × (require_auth none ≡ unauthorized)
unfolding require_role require_auth
guards = (refl, refl, refl)
