-- ===== src/Api/Session.antt =====
-- internal/api/session.go and RequireRole of rbac.go: whose request it is, and from which address.
-- net.SplitHostPort, net.ParseIP and strings.TrimSpace are arguments, and so are the answers of the
-- cookie, the signer and the store.
mod Tests
use tgproxy_panel.Prelude.{
  ℕ, ◌+◌, ◌/◌, String, ◌≡◌, refl, Bool, false, Option, none, some, List, [], ◌∷◌, ltb,
  if◌then◌else◌, ◌==◌, contains, nat_eq, string_eq,
}
use tgproxy_panel.Api.TokenPolicy.{Principal}

-- The host of net.SplitHostPort, none for an error; whether net.ParseIP reads an address.
pub record Addresses : Type 0 where
  pub host_of : String → Option String
  pub is_ip : String → Bool
  pub trim_space : String → String

unfoldable pub last_of : String → List String → String
last_of x [] = x
last_of x (y ∷ ys) = last_of y ys

-- The text after the last comma, or all of it: `found` is what follows the last comma so far.
unfoldable pub after_last_comma : String → String → String
after_last_comma found String.[] = found
after_last_comma found (String.◌∷◌ c s) =
    after_last_comma (if String.◌∷◌ c "" == "," then s else found) s

unfoldable pub remote_host : Addresses → String → String
remote_host net remote = elim (net.host_of remote) [ none ↦ remote | some host ↦ host ]

-- The address that X-Forwarded-For names, when it can be used.
unfoldable pub forwarded_ip : Addresses → String → Option String
forwarded_ip net value =
    let last = net.trim_space (after_last_comma value value) in
    let host : String = elim (net.host_of last) [ none ↦ last | some h ↦ h ] in
    if last == "" then none else if net.is_ip host then some host else none

unfoldable pub client_ip : Addresses → Bool → List String → String → String
client_ip net trust [] remote = remote_host net remote
client_ip net trust (v ∷ values) remote =
    if trust
    then elim (forwarded_ip net (last_of v values)) [ some ip ↦ ip | none ↦ remote_host net remote ]
    else remote_host net remote

pub record SessionRow : Type 0 where
  pub role : String
  pub expires_at : ℕ

-- sessionTTL is an argument; the second result is the new expiry when the session is prolonged.
unfoldable pub load_session :
    ℕ
    → ℕ
    → Option String
    → (String → Option String)
    → (String → Option SessionRow)
    → Option Principal × Option ℕ
load_session ttl now cookie verify get_session = elim cookie [
  | none ↦ (none, none)
  | some value ↦ elim (verify value) [
    | none ↦ (none, none)
    | some id ↦ elim (get_session id) [
      | none ↦ (none, none)
      | some row ↦ (
        some (record { role = row.role; is_token = false; scopes = [] }),
        if ltb row.expires_at (now + ttl / 2) then some (now + ttl) else none,
      )
    ]
  ]
]

-- What a guard answers before the handler runs.
pub data Guarded : Type 0 where
  unauthorized forbidden passed : Guarded

unfoldable pub require_auth : Option Principal → Guarded
require_auth none = unauthorized
require_auth (some p) = passed

unfoldable pub require_role : List String → Option Principal → Guarded
require_role roles none = unauthorized
require_role roles (some p) = if contains roles p.role then passed else forbidden

-- Without trust in forwarded headers the address is the peer's, whatever the headers say.
pub client_ip_peer :
    (net : Addresses) (values : List String) (remote : String)
    → client_ip net false values remote ≡ remote_host net remote
unfolding client_ip
client_ip_peer net [] remote = refl
client_ip_peer net (v ∷ values) remote = refl
