-- ===== src/Api/TokenPolicy/Catalog.antt =====
-- Which requests of a token pass, by the entries of the catalog.
use mathlib.Core.Option.{some-injective}
use mathlib.Core.Bool.{true≢false}
use tgproxy_panel.Prelude.{
  Memᴰ, any, head, tail, Memᴰ, has_suffix, trim_suffix, String, ◌≡◌, refl, sym, ap, ◌∙◌, ◌↔◌, ◌⊎◌,
  inl, inr, Bool, true, not, ◌&&◌, some, List, [], ◌∷◌, arith, eq_iff, ◌==◌, Bool-cases, any, all,
  contains, nat_eq, string_eq,
}
use tgproxy_panel.Api.TokenPolicy.Routes.{ApiRoute, management_api_routes}
use tgproxy_panel.Api.TokenPolicy.{
  Principal, enforce_api_token_policy, find_route, management_route, token_scope_allowed,
}
use tgproxy_panel.Api.TokenPolicy.Access.{find_route-all, found_route_iff}

-- The entry is for the method and the path.
abbrev pub IsFor : String → String → ApiRoute → Type 0
IsFor method path r = (r.method ≡ method) × (r.path ≡ path)

unfoldable is_for : String → String → ApiRoute → Bool
is_for method path r = (r.method == method) && (r.path == path)

-- No two entries are for the same method and path.
unfoldable all_distinct : List ApiRoute → Bool
unfolding is_for
all_distinct [] = true
all_distinct (r ∷ rs) = not (any (is_for r.method r.path) rs) && all_distinct rs

management_api_routes_distinct : all_distinct management_api_routes ≡ true
unfolding all_distinct management_api_routes
management_api_routes_distinct = refl

any-Memᴰ :
    (method path : String) (r : ApiRoute) (rs : List ApiRoute)
    → Memᴰ r rs
    → IsFor method path r
    → any (is_for method path) rs ≡ true
unfolding is_for
any-Memᴰ method path r [] listed fits = elim listed [ ]
any-Memᴰ method path r (x ∷ rs) (head e) (m, q) =
    let is_method : x.method ≡ method = ap (λ (y : ApiRoute). y.method) (sym e) ∙ m in
    let is_path : x.path ≡ path = ap (λ (y : ApiRoute). y.path) (sym e) ∙ q in
    ground (arith, eq_iff x.method method, eq_iff x.path path)
any-Memᴰ method path r (x ∷ rs) (tail there) fits =
    ground (arith, any-Memᴰ method path r rs there fits)

find_route-Memᴰ :
    (method path : String) (r : ApiRoute) (rs : List ApiRoute)
    → find_route method path rs ≡ some r
    → Memᴰ r rs
unfolding find_route
find_route-Memᴰ method path r [] found = ground arith
find_route-Memᴰ method path r (x ∷ rs) found =
    elim (Bool-cases ((x.method == method) && (x.path == path))) [
      | inl here ↦ let same : x ≡ r = some-injective x r (rw here at found) in head (sym same)
      | inr there ↦ tail (find_route-Memᴰ method path r rs (rw there at found))
    ]

Memᴰ-find_route :
    (method path : String) (r : ApiRoute) (rs : List ApiRoute)
    → all_distinct rs ≡ true
    → Memᴰ r rs
    → IsFor method path r
    → find_route method path rs ≡ some r
unfolding find_route all_distinct is_for
Memᴰ-find_route method path r [] distinct listed fits = elim listed [ ]
Memᴰ-find_route method path r (x ∷ rs) distinct (head e) (m, q) =
    let is_method : x.method ≡ method = ap (λ (y : ApiRoute). y.method) (sym e) ∙ m in
    let is_path : x.path ≡ path = ap (λ (y : ApiRoute). y.path) (sym e) ∙ q in
    let here : (x.method == method) && (x.path == path) ≡ true =
      ground (arith, eq_iff x.method method, eq_iff x.path path) in
    rw here (ap some (sym e))
Memᴰ-find_route method path r (x ∷ rs) distinct (tail there) (m, q) =
    elim (Bool-cases ((x.method == method) && (x.path == path))) [
      | inl here ↦
          let same_method : r.method ≡ x.method = ground (arith, eq_iff x.method method) in
          let same_path : r.path ≡ x.path = ground (arith, eq_iff x.path path) in
          absurd (
            true≢false
              (sym (any-Memᴰ x.method x.path r rs there (same_method, same_path)) ∙ ground arith))
      | inr apart ↦ rw apart (Memᴰ-find_route method path r rs (ground arith) there (m, q))
    ]

-- What a role can do with a scope: owners and administrators everything, viewers read, others nothing.
abbrev pub MayUse : String → String → Type 0
MayUse role scope =
    (role ≡ "owner") ⊎ ((role ≡ "admin") ⊎ ((role ≡ "viewer") × (has_suffix scope ":read" ≡ true)))

token_scope_allowed_iff :
    (role scope : String) → (token_scope_allowed role scope ≡ true) ↔ MayUse role scope
unfolding token_scope_allowed
token_scope_allowed_iff role scope = (
  λ h. ground (arith, eq_iff role "owner", eq_iff role "admin", eq_iff role "viewer"),
  λ h. elim h [
    | inl owner ↦ rw owner refl
    | inr (inl admin) ↦ rw admin refl
    | inr (inr (viewer, reads)) ↦ rw (viewer, reads) refl
  ],
)

all-true : (rs : List ApiRoute) → all (λ x. true) rs ≡ true
all-true [] = refl
all-true (r ∷ rs) = all-true rs

-- A token's request passes exactly when the catalog has an entry with its method and its path less a
-- final slash, the token has the entry's scope, its role is owner or admin, or viewer with a scope
-- that reads, and for an owner's entry it is owner.
pub enforce_iff :
    (p : Principal) (method pattern_ : String)
    → p.is_token ≡ true
    → (enforce_api_token_policy (some p) method pattern_ ≡ true) ↔ (
        (r : ApiRoute) × Memᴰ r management_api_routes
        × IsFor method (trim_suffix pattern_ "/") r
        × (contains p.scopes r.scope ≡ true)
        × MayUse p.role r.scope
        × (r.owner_only ≡ true → p.role ≡ "owner"))
enforce_iff p method pattern_ token =
    let path = trim_suffix pattern_ "/" in
    (
      λ h.
          let (r, found, has, allowed, owner) = (found_route_iff p method pattern_ token).0 h in
          let found' : find_route method path management_api_routes ≡ some r =
            unfold management_route in found in
          let (_, m, q) =
            find_route-all (λ x. true) method path management_api_routes r
              (all-true management_api_routes) found' in
          (
            r,
            find_route-Memᴰ method path r management_api_routes found',
            (m, q),
            has,
            (token_scope_allowed_iff p.role r.scope).0 allowed,
            owner,
          ),
      λ (r, listed, is_for_it, has, may, owner). (found_route_iff p method pattern_ token).1 (
        r,
        unfold management_route in
            Memᴰ-find_route method path r management_api_routes management_api_routes_distinct
              listed is_for_it,
        has,
        (token_scope_allowed_iff p.role r.scope).1 may,
        owner,
      ),
    )
