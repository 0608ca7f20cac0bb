-- ===== src/Api/TokenPolicy/Access.antt =====
-- What a personal API token can reach, whatever its scopes.
use mathlib.Core.Option.{some-injective}
use tgproxy_panel.Prelude.{
  has_suffix, trim_suffix, String, ◌≡◌, refl, sym, ◌∙◌, ◌↔◌, inl, inr, Bool, true, false, not, ◌&&◌,
  ◌||◌, none, some, List, [], ◌∷◌, arith, eq_iff, ◌==◌, ◌!=◌, Bool-cases, Option-cases, all,
  contains, nat_eq, string_eq,
}
use tgproxy_panel.Api.TokenPolicy.Routes.{ApiRoute, management_api_routes}
use tgproxy_panel.Api.TokenPolicy.{
  Principal, enforce_api_token_policy, find_route, management_route, role_owner, role_viewer,
  token_scope_allowed,
}

-- The answer in terms of the route that is found.
pub found_route_iff :
    (p : Principal) (method pattern_ : String)
    → p.is_token ≡ true
    → (enforce_api_token_policy (some p) method pattern_ ≡ true) ↔ (
        (r : ApiRoute) × (management_route method pattern_ ≡ some r)
        × (contains p.scopes r.scope ≡ true)
        × (token_scope_allowed p.role r.scope ≡ true)
        × (r.owner_only ≡ true → p.role ≡ role_owner))
unfolding enforce_api_token_policy
found_route_iff p method pattern_ token = (
  λ h. elim (Option-cases (management_route method pattern_)) [
    | inl missing ↦ absurd (ground arith)
    | inr (r, found) ↦
        (r, found, ground arith, ground arith, λ o. ground (arith, eq_iff p.role role_owner))
  ],
  λ (r, found, has, allowed, owner). rw (token, found) (ground (arith, eq_iff p.role role_owner)),
)

-- A route that is not in the catalog is closed to every token.
pub enforce_unknown :
    (p : Principal) (method pattern_ : String)
    → p.is_token ≡ true
    → management_route method pattern_ ≡ none
    → enforce_api_token_policy (some p) method pattern_ ≡ false
unfolding enforce_api_token_policy
enforce_unknown p method pattern_ token missing = rw (token, missing)

-- What a test says of all routes holds of a found one.
pub find_route-all :
    (test : ApiRoute → Bool) (method path : String) (rs : List ApiRoute) (r : ApiRoute)
    → all test rs ≡ true
    → find_route method path rs ≡ some r
    → (test r ≡ true) × (r.method ≡ method) × (r.path ≡ path)
unfolding find_route
find_route-all test method path [] r h found = absurd (cc)
find_route-all test method path (x ∷ rs) r h found =
    elim (Bool-cases ((x.method == method) && (x.path == path))) [
      | inl here ↦
          let same : x ≡ r = some-injective x r (rw here at found) in
          (
            ground (arith, same),
            ground (arith, same, eq_iff x.method method),
            ground (arith, same, eq_iff x.path path),
          )
      | inr there ↦ find_route-all test method path rs r (ground arith) (rw there at found)
    ]

abbrev reads_by_get : ApiRoute → Bool
reads_by_get r = not (has_suffix r.scope ":read") || (r.method == "GET")

abbrev settings_by_owner : ApiRoute → Bool
settings_by_owner r = (r.scope != "settings:write") || r.owner_only

all-reads_by_get : all reads_by_get management_api_routes ≡ true
unfolding management_api_routes has_suffix
all-reads_by_get = refl

all-settings_by_owner : all settings_by_owner management_api_routes ≡ true
unfolding management_api_routes
all-settings_by_owner = refl

passed_route :
    (p : Principal) (method pattern_ : String)
    → p.is_token ≡ true
    → enforce_api_token_policy (some p) method pattern_ ≡ true
    → (test : ApiRoute → Bool) → all test management_api_routes ≡ true
    → (r : ApiRoute) × (test r ≡ true)
      × (r.method ≡ method)
      × (token_scope_allowed p.role r.scope ≡ true)
      × (r.owner_only ≡ true → p.role ≡ role_owner)
passed_route p method pattern_ token h test holds =
    let (r, found, has, allowed, owner) = (found_route_iff p method pattern_ token).0 h in
    let (t, m, q) =
      find_route-all test method (trim_suffix pattern_ "/") management_api_routes r holds
        (unfold management_route in found) in
    (r, t, m, allowed, owner)

viewer_reads :
    (scope : String)
    → token_scope_allowed role_viewer scope ≡ true
    → has_suffix scope ":read" ≡ true
unfolding token_scope_allowed
viewer_reads scope h = ground arith

-- A viewer's token gets through to GET routes only, whatever scopes it was given.
pub viewer_token_gets :
    (p : Principal) (method pattern_ : String)
    → p.is_token ≡ true
    → p.role ≡ role_viewer
    → enforce_api_token_policy (some p) method pattern_ ≡ true
    → method ≡ "GET"
viewer_token_gets p method pattern_ token viewer h =
    let (r, t, m, allowed, owner) =
      passed_route p method pattern_ token h reads_by_get all-reads_by_get in
    let reads = viewer_reads r.scope (rw viewer at allowed) in
    sym m ∙ (eq_iff r.method "GET").0 (ground arith)

-- A token that gets through to a route that changes the panel's settings is an owner's.
pub settings_token_owner :
    (p : Principal) (method pattern_ : String) (r : ApiRoute)
    → p.is_token ≡ true
    → enforce_api_token_policy (some p) method pattern_ ≡ true
    → management_route method pattern_ ≡ some r
    → r.scope ≡ "settings:write"
    → p.role ≡ role_owner
settings_token_owner p method pattern_ r token h found settings =
    let (r', found', has, allowed, owner) = (found_route_iff p method pattern_ token).0 h in
    let same : r' ≡ r = some-injective r' r (sym found' ∙ found) in
    let (t, m, q) =
      find_route-all settings_by_owner method (trim_suffix pattern_ "/") management_api_routes r
        all-settings_by_owner (unfold management_route in found) in
    owner (ground (arith, same, eq_iff r.scope "settings:write"))
