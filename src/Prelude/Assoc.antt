-- ===== src/Prelude/Assoc.antt =====
-- Go's maps as association lists with one entry for each key. A nil map reads as the empty one.
use Prim.Native.Nat.{suc, ◌≤◌, ◌<◌}
use mathlib.Core.Path.{◌≡◌, refl, ap}
use mathlib.Core.Logic.{inl, inr}
use mathlib.Core.Bool.{Bool, true}
use mathlib.Core.Option.{Option, none, some}
use mathlib.Core.List.{List, [], ◌∷◌}
use native.Mathlib.Omega.{arith}
use tgproxy_panel.Prelude.Tests.{if◌then◌else◌, Key, ◌==◌, Bool-cases}
use tgproxy_panel.Prelude.Lists.{length}

abbrev pub Map {ℓ κ} : Type ℓ → Type κ → Type (ℓ ⊔ κ)
Map K V = List (K × V)

module _ {ℓ κ} {K : Type ℓ} {V : Type κ} where
  abbrev pub keys : Map K V → List K
  keys [] = []
  keys ((key, v) ∷ m) = key ∷ keys m

module _ {ℓ} {K : Type ℓ} ⦃e : Key K⦄ where
  pub same_refl : (key : K) → (key == key) ≡ true
  same_refl key = (e.same_iff key key).1 refl

module _ {ℓ κ} {K : Type ℓ} {V : Type κ} ⦃e : Key K⦄ where
  unfoldable pub lookup : K → Map K V → Option V
  lookup key [] = none
  lookup key ((asked, v) ∷ m) = if asked == key then some v else lookup key m

  unfoldable pub insert : K → V → Map K V → Map K V
  insert key v [] = (key, v) ∷ []
  insert key v ((asked, old) ∷ m) =
      if asked == key then (key, v) ∷ m else (asked, old) ∷ insert key v m

  -- `for k := range m { if !p(k) { delete(m, k) } }`
  unfoldable pub retain : (K → Bool) → Map K V → Map K V
  retain p [] = []
  retain p ((asked, v) ∷ m) = let rest = retain p m in if p asked then (asked, v) ∷ rest else rest

  -- `delete(m, k)`
  unfoldable pub remove : K → Map K V → Map K V
  remove key [] = []
  remove key ((asked, v) ∷ m) =
      let rest = remove key m in if asked == key then rest else (asked, v) ∷ rest

  pub lookup-insert :
      (key asked : K) (v : V) (m : Map K V)
      → lookup asked (insert key v m) ≡ (if key == asked then some v else lookup asked m)
  unfolding lookup insert
  lookup-insert key asked v [] = refl
  lookup-insert key asked v ((i, old) ∷ m) = ground (
    arith,
    e.same_iff key asked,
    e.same_iff i key,
    e.same_iff i asked,
    lookup-insert key asked v m,
  )

  pub lookup-remove :
      (key asked : K) (m : Map K V)
      → lookup asked (remove key m) ≡ (if key == asked then none else lookup asked m)
  unfolding lookup remove
  lookup-remove key asked [] = ground arith
  lookup-remove key asked ((i, old) ∷ m) =
      ground (
        arith,
        e.same_iff key asked,
        e.same_iff i key,
        e.same_iff i asked,
        lookup-remove key asked m,
      )

  pub lookup-retain :
      (p : K → Bool) (asked : K) (m : Map K V)
      → lookup asked (retain p m) ≡ (if p asked then lookup asked m else none)
  unfolding lookup retain
  lookup-retain p asked [] = ground arith
  lookup-retain p asked ((i, old) ∷ m) = elim (Bool-cases (i == asked)) [
    | inl same ↦ elim (Bool-cases (p i)) [
      | inl kept ↦ ground (arith, e.same_iff i asked, ap p ((e.same_iff i asked).0 same))
      | inr gone ↦
          ground
            (arith, e.same_iff i asked, ap p ((e.same_iff i asked).0 same), lookup-retain p asked m)
    ]
    | inr other ↦ ground (arith, lookup-retain p asked m)
  ]

  pub lookup-insert_self : (key : K) (v : V) (m : Map K V) → lookup key (insert key v m) ≡ some v
  lookup-insert_self key v m = simp (lookup-insert, same_refl)

  pub lookup-remove_self : (key : K) (m : Map K V) → lookup key (remove key m) ≡ none
  lookup-remove_self key m = simp (lookup-remove, same_refl)

  -- `len(m)` after a write to a key that is missing, a write to any key, and a deletion.
  pub length-insert_new :
      (key : K) (v : V) (m : Map K V)
      → lookup key m ≡ none
      → length (insert key v m) ≡ suc (length m)
  unfolding lookup insert
  length-insert_new key v [] h = refl
  length-insert_new key v ((asked, old) ∷ m) h = ground (arith, length-insert_new key v m)

  pub length-insert-le : (key : K) (v : V) (m : Map K V) → length (insert key v m) ≤ suc (length m)
  unfolding insert
  length-insert-le key v [] = omega arith
  length-insert-le key v ((asked, old) ∷ m) = ground (arith, length-insert-le key v m)

  pub length-remove-le : (key : K) (m : Map K V) → length (remove key m) ≤ length m
  unfolding remove
  length-remove-le key [] = omega arith
  length-remove-le key ((asked, old) ∷ m) = ground (arith, length-remove-le key m)

  pub length-remove-lt :
      (key : K) (m : Map K V) (v : V) → lookup key m ≡ some v → length (remove key m) < length m
  unfolding lookup remove
  length-remove-lt key [] v h = cc
  length-remove-lt key ((asked, old) ∷ m) v h =
      ground (arith, length-remove-le key m, length-remove-lt key m v)

  pub remove-missing : (key : K) (m : Map K V) → lookup key m ≡ none → remove key m ≡ m
  unfolding lookup remove
  remove-missing key [] h = refl
  remove-missing key ((asked, old) ∷ m) h = ground (arith, remove-missing key m)

pub ruleset map_laws = (lookup-insert, lookup-remove, lookup-retain)
