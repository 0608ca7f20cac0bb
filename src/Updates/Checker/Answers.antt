-- ===== src/Updates/Checker/Answers.antt =====
-- When the answer is fetched again, and what a call is told meanwhile.
use tgproxy_panel.Prelude.{
  ℕ, ◌+◌, ◌≤◌, String, ◌≡◌, refl, ◌≢◌, ◌↔◌, inl, inr, true, false, ◌&&◌, Option, none, some, arith,
  eq_iff, ◌!=◌, Option-cases, ℤ, nat_eq, string_eq,
}
use tgproxy_panel.Updates.Version.{newer}
use tgproxy_panel.Updates.Version.Order.{IsNewer, newer_iff}
use tgproxy_panel.Updates.Checker.{
  Checker, Fetched, begin_fetch, finish_fetch, needs_fetch, retry_after, status_locked,
}

-- The earliest time of the next fetch after one that ended at a time with an answer.
abbrev pub AllowedAfter : Checker → ℕ → Option Fetched → ℕ → Type 0
AllowedAfter c ended none now = ended + retry_after ≤ now
AllowedAfter c ended (some g) now = g.at + c.ttl ≤ now

-- After a fetch that failed, the next begins five minutes
-- after its end at the earliest; after one that succeeded, when the answer is as old as the TTL.
pub finish_fetch-begin_fetch :
    (c : Checker) (ended now : ℕ) (got : Option Fetched)
    → (begin_fetch (finish_fetch c ended got) now).1 ≡ true
    → AllowedAfter c ended got now
unfolding begin_fetch needs_fetch finish_fetch
finish_fetch-begin_fetch c ended now none h = ground arith
finish_fetch-begin_fetch c ended now (some g) h = ground arith

-- A failed fetch takes nothing back: every part of the answer but the mark that it is stale stays
-- as it was, and the answer is marked stale.
pub status_locked-failed :
    (atoi : String → Option ℤ) (c : Checker) (now : ℕ)
    → status_locked atoi (finish_fetch c now none) ≡ record (status_locked atoi c) { stale = true }
unfolding status_locked finish_fetch
status_locked-failed atoi c now = elim (Option-cases c.good) [
  | inl nothing ↦ rw nothing refl
  | inr (g, cached) ↦ rw cached refl
]

-- An update is announced exactly when an answer is cached, the panel is not a development build,
-- both texts are versions, and the cached release is after the panel's version: greater in the
-- first of the three numbers that differs, or with the same numbers a release after a pre-release or
-- a pre-release with the greater text.
pub update_available_iff :
    (atoi : String → Option ℤ) (c : Checker)
    → ((status_locked atoi c).update_available ≡ true)
      ↔ ((g : Fetched) × (c.good ≡ some g) × (c.current ≢ "dev") × IsNewer atoi g.latest c.current)
unfolding status_locked
update_available_iff atoi c = (
  λ h. elim (Option-cases c.good) [
    | inl nothing ↦ absurd (cc (rw nothing at h))
    | inr (g, cached) ↦
        let shown : (c.current != "dev") && newer atoi g.latest c.current ≡ true = rw cached at h in
        (
          g,
          cached,
          ground (arith, eq_iff c.current "dev"),
          (newer_iff atoi g.latest c.current).0 (ground arith),
        )
  ],
  λ (g, cached, released, is_newer).
      rw cached
        (ground (arith, eq_iff c.current "dev", (newer_iff atoi g.latest c.current).1 is_newer)),
)

-- While a fetch is under way no other begins.
pub begin_fetch-once :
    (c : Checker) (now later : ℕ)
    → (begin_fetch c now).1 ≡ true
    → (begin_fetch (begin_fetch c now).0 later).1 ≡ false
unfolding begin_fetch
begin_fetch-once c now later h = ground arith
