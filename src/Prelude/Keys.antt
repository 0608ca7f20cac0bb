-- ===== src/Prelude/Keys.antt =====
-- Lists without repetitions, and the keys of a map.
use mathlib.Core.Path.{◌≡◌, refl, subst}
use mathlib.Core.Bool.{Bool, false, ◌||◌}
use mathlib.Core.Option.{none, some, some-injective}
use mathlib.Core.Logic.{inl, inr}
use mathlib.Core.List.{List, [], ◌∷◌, ◌++◌}
use native.Mathlib.Omega.{arith}
use tgproxy_panel.Prelude.Tests.{Key, ◌==◌, ◌!=◌, Bool-cases}
use tgproxy_panel.Prelude.Lists.{length, contains, keep_if, All}
use tgproxy_panel.Prelude.Assoc.{Map, keys, lookup, insert, remove}

module _ {ℓ} {A : Type ℓ} ⦃e : Key A⦄ where
  abbrev pub Distinct : List A → Type 0
  Distinct [] = Unit
  Distinct (x ∷ xs) = (contains xs x ≡ false) × Distinct xs

  contains-append : (xs : List A) (y a : A) → contains (xs ++ y ∷ []) a ≡ (contains xs a || y == a)
  contains-append [] y a = ground arith
  contains-append (x ∷ xs) y a = ground (arith, contains-append xs y a)

  pub Distinct-append_one :
      (xs : List A) (y : A) → Distinct xs → contains xs y ≡ false → Distinct (xs ++ y ∷ [])
  Distinct-append_one [] y d h = (refl, tt)
  Distinct-append_one (x ∷ xs) y d h = (
    ground (arith, contains-append xs y x, e.same_iff y x, e.same_iff x y, d.0),
    Distinct-append_one xs y d.1 (ground arith),
  )

  contains-keep_if :
      (p : A → Bool) (xs : List A) (a : A)
      → contains xs a ≡ false
      → contains (keep_if p xs) a ≡ false
  contains-keep_if p [] a h = refl
  contains-keep_if p (x ∷ xs) a h = ground (arith, contains-keep_if p xs a)

  pub Distinct-keep_if : (p : A → Bool) (xs : List A) → Distinct xs → Distinct (keep_if p xs)
  Distinct-keep_if p [] d = tt
  Distinct-keep_if p (x ∷ xs) d = elim (Bool-cases (p x)) [
    | inl kept ↦ rw kept (contains-keep_if p xs x d.0, Distinct-keep_if p xs d.1)
    | inr gone ↦ rw gone (Distinct-keep_if p xs d.1)
  ]

module _ {ℓ κ} {A : Type ℓ} {V : Type κ} ⦃e : Key A⦄ where
  pub contains-keys : (k : A) (m : Map A V) → lookup k m ≡ none → contains (keys m) k ≡ false
  unfolding lookup
  contains-keys k [] h = refl
  contains-keys k ((j, v) ∷ m) h = ground (arith, contains-keys k m)

  pub keys-insert_new :
      (k : A) (v : V) (m : Map A V) → lookup k m ≡ none → keys (insert k v m) ≡ keys m ++ k ∷ []
  unfolding lookup insert
  keys-insert_new k v [] h = refl
  keys-insert_new k v ((j, w) ∷ m) h = ground (arith, keys-insert_new k v m)

  pub keys-remove : (k : A) (m : Map A V) → keys (remove k m) ≡ keep_if (λ j. j != k) (keys m)
  unfolding remove
  keys-remove k [] = refl
  keys-remove k ((j, w) ∷ m) = ground (arith, keys-remove k m)

  pub length-keys : (m : Map A V) → length (keys m) ≡ length m
  length-keys [] = refl
  length-keys ((j, v) ∷ m) = omega (arith, length-keys m)

  -- What holds of every entry holds of what a key is mapped to.
  pub lookup-All {μ} :
      (P : A → V → Type μ) (k : A) (v : V) (m : Map A V)
      → All (λ entry. P entry.0 entry.1) m
      → lookup k m ≡ some v
      → P k v
  unfolding lookup
  lookup-All P k v [] h found = absurd (cc)
  lookup-All P k v ((j, w) ∷ m) h found = elim (Bool-cases (j == k)) [
    | inl same ↦
        subst (λ x. P x v) ((e.same_iff j k).0 same)
          (subst (P j) (some-injective w v (rw same at found)) h.0)
    | inr other ↦ lookup-All P k v m h.1 (rw other at found)
  ]
