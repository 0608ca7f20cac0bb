-- ===== src/Api/TokenPolicy.antt =====
-- internal/api/api_token_policy.go: which requests of a personal API token are let through.
-- A principal whose APITokenID is nil is a browser session. Routing itself is chi's: the matched
-- pattern is an argument.
pub mod Routes
pub mod Access
pub mod Catalog
mod Tests
use tgproxy_panel.Prelude.{
  has_suffix, trim_suffix, String, Bool, true, false, not, ◌&&◌, ◌||◌, Option, none, some, List, [],
  ◌∷◌, if◌then◌else◌, ◌==◌, ◌!=◌, contains, concat, nat_eq, string_eq,
}
use tgproxy_panel.Api.TokenPolicy.Routes.{ApiRoute, management_api_routes}

abbrev pub role_owner : String
role_owner = "owner"

abbrev pub role_admin : String
role_admin = "admin"

abbrev pub role_viewer : String
role_viewer = "viewer"

pub record Principal : Type 0 where
  pub role : String
  pub is_token : Bool
  pub scopes : List String

-- The loop of managementRoute.
unfoldable pub find_route : String → String → List ApiRoute → Option ApiRoute
find_route method path [] = none
find_route method path (r ∷ rs) =
    let rest = find_route method path rs in
    if (r.method == method) && (r.path == path) then some r else rest

unfoldable pub management_route : String → String → Option ApiRoute
unfolding find_route
management_route method pattern_ =
    find_route method (trim_suffix pattern_ "/") management_api_routes

unfoldable pub token_scope_allowed : String → String → Bool
token_scope_allowed role scope =
    if (role != role_owner) && (role != role_admin) && (role != role_viewer)
    then false
    else (role != role_viewer) || has_suffix scope ":read"

-- principalCanWrite, where no principal is none.
unfoldable pub principal_can_write : Option Principal → String → Bool
principal_can_write none resource = false
principal_can_write (some p) resource =
    ((p.role == role_owner) || (p.role == role_admin))
    && (not p.is_token || contains p.scopes (concat resource ":write"))

-- The condition of enforceAPITokenPolicy on a found route, negated: whether the request goes on.
unfoldable pub route_allowed : Principal → Option ApiRoute → Bool
route_allowed p none = false
route_allowed p (some r) = not (
    not (contains p.scopes r.scope)
    || not (token_scope_allowed p.role r.scope)
    || (r.owner_only && (p.role != role_owner)))

unfoldable pub enforce_api_token_policy : Option Principal → String → String → Bool
unfolding route_allowed
enforce_api_token_policy none method pattern_ = true
enforce_api_token_policy (some p) method pattern_ =
    if p.is_token then route_allowed p (management_route method pattern_) else true
