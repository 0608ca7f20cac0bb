-- ===== src/Api/TokenPolicy/Tests.antt =====
-- Requests of a viewer's token, and of an administrator's.
use tgproxy_panel.Prelude.{
  Memᴰ, Memᴰ, has_suffix, trim_suffix, ◌≡◌, refl, ◌↔◌, true, false, some, [], ◌∷◌, contains, nat_eq,
  string_eq,
}
use tgproxy_panel.Api.TokenPolicy.Routes.{ApiRoute, management_api_routes, route}
use tgproxy_panel.Api.TokenPolicy.{
  Principal, enforce_api_token_policy, management_route, principal_can_write, token_scope_allowed,
}
use tgproxy_panel.Api.TokenPolicy.Catalog.{IsFor, MayUse, enforce_iff}

abbrev reader : Principal
reader = record { role = "viewer"; is_token = true; scopes = "nodes:read" ∷ "nodes:write" ∷ [] }

abbrev owner_token : Principal
owner_token = record { role = "owner"; is_token = true; scopes = "settings:write" ∷ [] }

abbrev put_settings : ApiRoute
put_settings = route "PUT" "/api/v1/settings" "settings:write" "Update panel settings" true

requests :
    (enforce_api_token_policy (some reader) "GET" "/api/v1/nodes/" ≡ true)
    × (enforce_api_token_policy (some reader) "POST" "/api/v1/nodes" ≡ false)
    × (enforce_api_token_policy (some reader) "GET" "/api/v1/backups" ≡ false)
    × (enforce_api_token_policy (some owner_token) "PUT" "/api/v1/settings" ≡ true)
    × (enforce_api_token_policy
          (some (record owner_token { role = "admin" }))
          "PUT"
          "/api/v1/settings"
        ≡ false)
unfolding enforce_api_token_policy management_route management_api_routes token_scope_allowed
    has_suffix trim_suffix
requests = (refl, refl, refl, refl, refl)

writes :
    (principal_can_write (some reader) "nodes" ≡ false)
    × (principal_can_write (some owner_token) "settings" ≡ true)
    × (principal_can_write (some owner_token) "nodes" ≡ false)
unfolding principal_can_write
writes = (refl, refl, refl)

enforce_iff_example : (enforce_api_token_policy (some reader) "GET" "/api/v1/nodes/" ≡ true) ↔ (
    (r : ApiRoute) × Memᴰ r management_api_routes
    × IsFor "GET" (trim_suffix "/api/v1/nodes/" "/") r
    × (contains reader.scopes r.scope ≡ true)
    × MayUse reader.role r.scope
    × (r.owner_only ≡ true → reader.role ≡ "owner"))
enforce_iff_example = enforce_iff reader "GET" "/api/v1/nodes/" refl
