-- ===== src/Agent/Egress/Routes.antt =====
-- The routes of the engine after a change of egress.
use tgproxy_panel.Prelude.{
  ℕ, ◌<◌, String, ◌≡◌, refl, ◌≢◌, ◌⊎◌, inl, inr, true, false, List, [], ◌∷◌, ◌++◌, arith, eq_iff,
  Bool-cases, keep_if, all,
}
use tgproxy_panel.Agent.Egress.{
  EgressHost, Engine, Scopes, Upstream, Upstreams, absent, apply_egress, came_up, has_scope,
  is_scoped, items, new_route, no_upstreams, odd_value, or_empty, other, patched, probe_egress,
  scoped_routes, telegram_dcs, text, upstreams,
}

-- A "scopes" that says something: a text that is not empty, a list that is not empty, or a value of
-- another kind.
pub data IsScope : Scopes → Type 0 where
  odd_scope : IsScope other
  text_scope : (s : String) → s ≢ "" → IsScope (text s)
  list_scope : (n : ℕ) → 0 < n → IsScope (items n)

-- An entry is kept exactly when it is an object with a scope, and the kept ones stay in order.
pub data Keeps : List Upstream → List Upstream → Type 0 where
  none_left : Keeps [] []
  kept_on :
      {us kept : List Upstream} (u : Upstream)
      → u.is_map ≡ true
      → IsScope u.scopes
      → Keeps us kept
      → Keeps (u ∷ us) (u ∷ kept)
  left_out :
      {us kept : List Upstream} (u : Upstream)
      → (u.is_map ≡ true → IsScope u.scopes → ⊥)
      → Keeps us kept
      → Keeps (u ∷ us) kept

abbrev pub KeepsOf : Upstreams → List Upstream → Type 0
KeepsOf no_upstreams kept = kept ≡ []
KeepsOf (upstreams us) kept = Keeps us kept
KeepsOf odd_value kept = kept ≡ []

-- An object without a scope that leads over an address, or directly for none.
abbrev pub LeadsOver : String → Upstream → Type 0
LeadsOver addr u =
    (u.is_map ≡ true)
    × (u.scopes ≡ absent)
    × (u.address ≡ addr)
    × (addr ≡ "" → u.kind ≡ "direct")
    × (addr ≢ "" → u.kind ≡ "socks5")

has_scope-IsScope : (s : Scopes) → has_scope s ≡ true → IsScope s
unfolding has_scope
has_scope-IsScope absent h = ground arith
has_scope-IsScope other h = odd_scope
has_scope-IsScope (text s) h = text_scope s (ground (arith, eq_iff s ""))
has_scope-IsScope (items n) h = list_scope n (ground arith)

IsScope-has_scope : {s : Scopes} → IsScope s → has_scope s ≡ true
unfolding has_scope
IsScope-has_scope odd_scope = refl
IsScope-has_scope (text_scope s set) = ground (arith, eq_iff s "")
IsScope-has_scope (list_scope n some_item) = ground arith

keep_if-Keeps : (us : List Upstream) → Keeps us (keep_if is_scoped us)
keep_if-Keeps [] = none_left
keep_if-Keeps (u ∷ us) = elim (Bool-cases (is_scoped u)) [
  | inl kept ↦
      rw kept
        (kept_on u (ground arith) (has_scope-IsScope u.scopes (ground arith)) (keep_if-Keeps us))
  | inr gone ↦
      rw gone
        (left_out u (λ is_map scope. ground (arith, IsScope-has_scope scope)) (keep_if-Keeps us))
]

scoped_routes-KeepsOf : (routes : Upstreams) → KeepsOf routes (scoped_routes routes)
unfolding scoped_routes
scoped_routes-KeepsOf no_upstreams = refl
scoped_routes-KeepsOf (upstreams us) = keep_if-Keeps us
scoped_routes-KeepsOf odd_value = refl

new_route-LeadsOver : (addr : String) → LeadsOver addr (new_route addr)
new_route-LeadsOver addr = (
  refl,
  refl,
  refl,
  λ direct. ground (arith, eq_iff addr ""),
  λ proxy. ground (arith, eq_iff addr ""),
)

-- A change that succeeds, on an engine that takes what it reports as taken, reached every probed
-- data centre over the new address; the engine then has those of its routes that are objects with a
-- scope, in their order (none of them if its routes were no list), and after them one more, without
-- a scope, that leads over the new address, or directly for an empty one.
pub apply_egress-success :
    (h : EgressHost) (e : Engine) (addr : String)
    → (h.patch.succeeds ≡ true → h.patch.takes_effect ≡ true)
    → (apply_egress h e addr).1 ≡ true
    → (all (h.reaches addr) telegram_dcs ≡ true)
      × ((kept : List Upstream) × (new : Upstream) × ((apply_egress h e addr).0.routes
            ≡ upstreams (kept ++ new ∷ []))
          × KeepsOf e.routes kept
          × LeadsOver addr new)
unfolding apply_egress came_up patched probe_egress
apply_egress-success h e addr honest up = (
  ground arith,
  (
    scoped_routes e.routes,
    new_route addr,
    ground arith,
    scoped_routes-KeepsOf e.routes,
    new_route-LeadsOver addr,
  ),
)

-- A change that fails either did not touch the routes, or put them back when the engine takes the
-- restoring patch; a missing list comes back as an empty one.
pub apply_egress-failure :
    (h : EgressHost) (e : Engine) (addr : String)
    → h.undo.takes_effect ≡ true
    → (apply_egress h e addr).1 ≡ false
    → ((apply_egress h e addr).0.routes ≡ e.routes)
      ⊎ ((apply_egress h e addr).0.routes ≡ or_empty e.routes)
unfolding apply_egress patched
apply_egress-failure h e addr restores down = ground arith
