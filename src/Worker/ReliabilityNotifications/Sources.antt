-- ===== src/Worker/ReliabilityNotifications/Sources.antt =====
-- The rows of a node after a snapshot of its findings.
use tgproxy_panel.Prelude.{
  All-keep_if, All-weaken, ℕ, String, ◌≡◌, refl, inl, inr, Bool, true, false, not, ◌&&◌, List, [],
  ◌∷◌, map, arith, eq_iff, if◌then◌else◌, ◌==◌, Bool-cases, any, All, nat_eq, string_eq,
}
use tgproxy_panel.Reliability.{Finding}
use tgproxy_panel.Worker.ReliabilityNotifications.{
  Observed, forget_row, is_kept, observe_findings, put_findings, put_row, source_of,
}

abbrev row_of : String → String → ℕ → Finding → Observed
row_of node source now f = record {
  node = node;
  source = source;
  kind = f.kind;
  failed = f.failed;
  known = f.known;
  observed_at = now;
}

-- Whether a finding is known and has the kind and the verdict of a row.
abbrev pub backs : Observed → Finding → Bool
backs r f = f.known && (f.kind == r.kind) && (if f.failed then r.failed else not r.failed)

-- A row of the node and source that is known has the time of the snapshot and a finding behind it.
abbrev pub Backed : String → String → ℕ → List Finding → Observed → Type 0
Backed node source now fs r =
    r.node ≡ node
    → r.source ≡ source
    → r.known ≡ true
    → (any (backs r) fs ≡ true) × (r.observed_at ≡ now)

put_row-All :
    (P : Observed → Type 0) (new : Observed) (rows : List Observed)
    → P new
    → All P rows
    → All P (put_row new rows)
unfolding put_row
put_row-All P new [] q h = (q, tt)
put_row-All P new (r ∷ rows) q h =
    elim (Bool-cases ((r.node == new.node) && (r.kind == new.kind))) [
      | inl taken ↦ rw taken (q, h.1)
      | inr free ↦ rw free (h.0, put_row-All P new rows q h.1)
    ]

either_All :
    (P : Observed → Type 0) (b : Bool) (rows put : List Observed)
    → (b ≡ true → All P put)
    → All P rows
    → All P (if not b then rows else put)
either_All P true rows put q h = q refl
either_All P false rows put q h = h

put_findings-All :
    (P : Observed → Type 0) (node source : String) (now : ℕ) (fs : List Finding)
    (rows : List Observed)
    → All (λ f. f.known ≡ true → P (row_of node source now f)) fs
    → All P rows
    → All P (put_findings node source now fs rows)
unfolding put_findings
put_findings-All P node source now [] rows known h = h
put_findings-All P node source now (f ∷ fs) rows known h =
    let put = put_row (row_of node source now f) rows in
    put_findings-All P node source now fs (if not f.known then rows else put) known.1 (
      either_All P f.known rows put
        (λ sure. put_row-All P (row_of node source now f) rows (known.0 sure) h) h)

snapshot_backs :
    (node source : String) (now : ℕ) (fs : List Finding)
    → All (λ f. f.known ≡ true → any (backs (row_of node source now f)) fs ≡ true) fs
snapshot_backs node source now [] = tt
snapshot_backs node source now (f ∷ fs) = (
  λ known. ground (arith, eq_iff f.kind f.kind),
  All-weaken (λ g. g.known ≡ true → any (backs (row_of node source now g)) fs ≡ true)
      (λ g. g.known ≡ true → any (backs (row_of node source now g)) (f ∷ fs) ≡ true) fs
      (λ g h known. ground (arith, h known)) (snapshot_backs node source now fs),
)

forgotten :
    (node source : String) (now : ℕ) (fs : List Finding) (rows : List Observed)
    → All (Backed node source now fs) (map (forget_row node source now) rows)
unfolding forget_row
forgotten node source now fs [] = tt
forgotten node source now fs (r ∷ rows) = (
  λ n s k. ground (arith, eq_iff r.node node, eq_iff r.source source),
  forgotten node source now fs rows,
)

-- After a snapshot is saved, every row of its node and source that counts as known has the time of
-- the snapshot and the verdict of a known finding of its kind in it: whatever an earlier snapshot
-- said and this one leaves out is unknown.
pub observe_findings-Backed :
    (node : String) (now : ℕ) (f : Finding) (fs : List Finding) (rows : List Observed)
    → All (Backed node (source_of f) now (f ∷ fs)) (observe_findings node now true (f ∷ fs) rows)
unfolding observe_findings
observe_findings-Backed node now f fs rows =
    let source = source_of f in
    All-keep_if (Backed node source now (f ∷ fs)) (is_kept node source now)
      (put_findings node source now (f ∷ fs) (map (forget_row node source now) rows))
      (put_findings-All (Backed node source now (f ∷ fs)) node source now (f ∷ fs)
        (map (forget_row node source now) rows)
        (All-weaken (λ g. g.known ≡ true → any (backs (row_of node source now g)) (f ∷ fs) ≡ true)
          (λ g. g.known ≡ true → Backed node source now (f ∷ fs) (row_of node source now g))
          (f ∷ fs) (λ g h known n s k. (h known, refl)) (snapshot_backs node source now (f ∷ fs)))
        (forgotten node source now (f ∷ fs) rows))
