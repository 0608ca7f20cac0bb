-- ===== src/Domain/WebPolicy/Rules.antt =====
-- What an accepted WEB policy guarantees, and that nothing else is refused.
use tgproxy_panel.Prelude.{
  ◌+◌, ◌<◌, String, ◌≡◌, refl, ◌≢◌, ◌↔◌, Bool, true, false, Option, none, some, List, [], ◌∷◌,
  arith, eq_iff, ◌==◌, length, All, Distinct, contains, ℤ, pos, pos_part, neg_part, ◌≤ℤ◌, nat_eq,
  string_eq,
}
use tgproxy_panel.Domain.WebPolicy.{
  PolicyError, WebPolicy, WebTimeouts, aggressiveness_valid, capacity_action_valid, carrier_valid,
  no_carriers, preset_valid, validate, validate_bounds, validate_carriers, validate_deadlines,
  validate_timeouts,
}

infix 50 ◌<ℤ◌
abbrev pub ◌<ℤ◌ : ℤ → ℤ → Type 0
a <ℤ b = pos_part a + neg_part b < pos_part b + neg_part a

-- Positive and strictly increasing, after `previous`.
abbrev pub IsIncreasing : Option ℤ → List ℤ → Type 0
IsIncreasing previous [] = Unit
IsIncreasing none (d ∷ ds) = (pos 1 ≤ℤ d) × IsIncreasing (some d) ds
IsIncreasing (some p) (d ∷ ds) = ((pos 1 ≤ℤ d) × (p <ℤ d)) × IsIncreasing (some d) ds

validate_deadlines_iff :
    (previous : Option ℤ) (ds : List ℤ)
    → (validate_deadlines previous ds ≡ none) ↔ IsIncreasing previous ds
unfolding validate_deadlines
validate_deadlines_iff previous [] = (λ h. tt, λ h. refl)
validate_deadlines_iff none (d ∷ ds) =
    let (to, from) = validate_deadlines_iff (some d) ds in
    (λ h. (ground arith, to (ground arith)), λ h. ground (arith, from h.1))
validate_deadlines_iff (some p) (d ∷ ds) =
    let (to, from) = validate_deadlines_iff (some d) ds in
    (λ h. (ground arith, to (ground arith)), λ h. ground (arith, from h.1))

pub record InBounds (t : WebTimeouts) : Type 0 where
  pub health_bound : pos 1 ≤ℤ t.carrier_health_secs
  pub learning_bound : (pos 2 ≤ℤ t.carrier_learning_secs) × (t.carrier_learning_secs ≤ℤ pos 86400)
  pub request_bound : (pos 1 ≤ℤ t.bridge_request_secs) × (t.bridge_request_secs ≤ℤ pos 60)
  pub retry_bound : t.bridge_retry_secs ≤ℤ pos 300
  pub retry_covers : t.bridge_request_secs ≤ℤ t.bridge_retry_secs
  pub coalesce_bound : (pos 0 ≤ℤ t.probe_coalesce_ms) × (t.probe_coalesce_ms ≤ℤ pos 10)

validate_bounds_iff : (t : WebTimeouts) → (validate_bounds t ≡ none) ↔ InBounds t
unfolding validate_bounds
validate_bounds_iff t = (λ h. ground arith, λ b. ground arith)

-- Timeouts are accepted exactly when there are four deadlines, positive and strictly increasing,
-- and every other timeout lies in telemt's bounds, with the retry no shorter than the request.
pub validate_timeouts_iff :
    (t : WebTimeouts)
    → (validate_timeouts t ≡ none) ↔ (
        (length t.negotiation_deadlines_secs ≡ 4)
        × IsIncreasing none t.negotiation_deadlines_secs
        × InBounds t)
unfolding validate_timeouts
validate_timeouts_iff t =
    let (to_d, from_d) = validate_deadlines_iff none t.negotiation_deadlines_secs in
    let (to_b, from_b) = validate_bounds_iff t in
    (
      λ h. (ground arith, to_d (ground arith), to_b (ground arith)),
      λ p. ground (arith, p.0, from_d p.1, from_b p.2),
    )

abbrev pub AllowedCarriers : List String → List String → Type 0
AllowedCarriers seen [] = Unit
AllowedCarriers seen (c ∷ cs) =
    (carrier_valid c ≡ true) × (contains seen c ≡ false) × AllowedCarriers (c ∷ seen) cs

validate_carriers_iff :
    (seen cs : List String) → (validate_carriers seen cs ≡ none) ↔ AllowedCarriers seen cs
unfolding validate_carriers
validate_carriers_iff seen [] = (λ h. tt, λ h. refl)
validate_carriers_iff seen (c ∷ cs) =
    let (to, from) = validate_carriers_iff (c ∷ seen) cs in
    (λ h. (ground arith, ground arith, to (ground arith)), λ h. ground (arith, from h.2))

-- No carrier of an accepted list stands in it twice.
AllowedCarriers-Distinct :
    (seen cs : List String)
    → AllowedCarriers seen cs
    → Distinct cs × All (λ c. contains seen c ≡ false) cs
AllowedCarriers-Distinct seen [] h = (tt, tt)
AllowedCarriers-Distinct seen (c ∷ cs) h =
    let (d, fresh) = AllowedCarriers-Distinct (c ∷ seen) cs h.2 in
    ((unseen c cs (heads c seen cs fresh), d), (h.1, tails c seen cs fresh))
  where
    heads :
        (c : String) (seen cs : List String)
        → All (λ x. contains (c ∷ seen) x ≡ false) cs
        → All (λ x. (c == x) ≡ false) cs
    heads c seen [] h = tt
    heads c seen (x ∷ cs) h = (ground arith, heads c seen cs h.1)

    tails :
        (c : String) (seen cs : List String)
        → All (λ x. contains (c ∷ seen) x ≡ false) cs
        → All (λ x. contains seen x ≡ false) cs
    tails c seen [] h = tt
    tails c seen (x ∷ cs) h = (ground arith, tails c seen cs h.1)

    unseen :
        (c : String) (cs : List String) → All (λ x. (c == x) ≡ false) cs → contains cs c ≡ false
    unseen c [] h = refl
    unseen c (x ∷ cs) h = ground (arith, eq_iff c x, eq_iff x c, unseen c cs h.1)

-- The carriers of a policy: none at all (negotiation is off), or a list that is not empty, of
-- known carriers, none twice.
abbrev pub CarriersOk : Option (List String) → Type 0
CarriersOk none = Unit
CarriersOk (some cs) = (cs ≢ []) × All (λ c. carrier_valid c ≡ true) cs × Distinct cs

AllowedCarriers-valid :
    (seen cs : List String) → AllowedCarriers seen cs → All (λ c. carrier_valid c ≡ true) cs
AllowedCarriers-valid seen [] h = tt
AllowedCarriers-valid seen (c ∷ cs) h = (h.0, AllowedCarriers-valid (c ∷ seen) cs h.2)

carriers_test : Option (List String) → Option PolicyError
carriers_test none = none
carriers_test (some []) = some no_carriers
carriers_test (some (c ∷ cs)) = validate_carriers [] (c ∷ cs)

carriers-Ok : (cs : Option (List String)) → carriers_test cs ≡ none → CarriersOk cs
unfolding carriers_test
carriers-Ok none h = tt
carriers-Ok (some []) h = absurd (cc)
carriers-Ok (some (c ∷ cs)) h =
    let allowed = (validate_carriers_iff [] (c ∷ cs)).0 h in
    (
      λ e. absurd (cc e),
      AllowedCarriers-valid [] (c ∷ cs) allowed,
      (AllowedCarriers-Distinct [] (c ∷ cs) allowed).0,
    )

-- An accepted policy has a known default carrier and aggressiveness, known overload settings,
-- carriers that are off or a list of distinct known ones, and accepted timeouts.
pub validate_accepts :
    (path_matches : String → Bool) (p : WebPolicy)
    → validate path_matches p ≡ none
    → (carrier_valid p.carrier ≡ true)
      × (aggressiveness_valid p.aggressiveness ≡ true)
      × (preset_valid p.overload.preset ≡ true)
      × (capacity_action_valid p.overload.connection_capacity_action ≡ true)
      × CarriersOk p.carriers
      × (validate_timeouts p.timeouts ≡ none)
unfolding validate carriers_test
validate_accepts path_matches p h = (
  ground arith,
  ground arith,
  ground arith,
  ground arith,
  carriers-Ok p.carriers (ground arith),
  ground arith,
)
