-- ===== src/Updates/Checker.antt =====
-- The Checker of internal/updates/updates.go: one cached answer, and when it is fetched again.
-- A call of Status that fetches is two steps, since the lock is free during the fetch: `begin_fetch`
-- and `finish_fetch`. The two answers of the API are arguments, none for a call that fails; a time
-- is a number of nanoseconds, and CheckedAt is left as the time that it prints.
pub mod Answers
mod Tests
use tgproxy_panel.Prelude.{
  ℕ, ◌+◌, ◌*◌, String, Bool, true, false, not, ◌&&◌, Option, none, some, ltb, leb, if◌then◌else◌,
  ◌==◌, ◌!=◌, ℤ, pos, negsuc, nat_eq, string_eq,
}
use tgproxy_panel.Updates.Version.{newer, trim_v}

abbrev pub retry_after : ℕ
retry_after = 300 * 1000000000

pub record Fetched : Type 0 where
  pub latest : String
  pub latest_url : String
  pub published_at : String
  pub stars : ℤ
  pub at : ℕ

pub record ReleaseDoc : Type 0 where
  pub tag_name : String
  pub html_url : String
  pub published_at : String

-- `ttl` is what the method ttl returns, and `current` what the method current does.
pub record Checker : Type 0 where
  pub ttl : ℕ
  pub current : String
  pub good : Option Fetched
  pub last_attempt : ℕ
  pub last_failed : Bool
  pub inflight : Bool

pub record Status : Type 0 where
  pub latest : String
  pub latest_url : String
  pub published_at : String
  pub stars : ℤ
  pub checked_at : Option ℕ
  pub update_available : Bool
  pub stale : Bool

unfoldable pub needs_fetch : Checker → ℕ → Bool
needs_fetch c now =
    if c.last_failed && ltb now (c.last_attempt + retry_after)
    then false
    else elim c.good [ none ↦ true | some g ↦ leb (g.at + c.ttl) now ]

unfoldable pub begin_fetch : Checker → ℕ → Checker × Bool
begin_fetch c now =
    if not c.inflight && needs_fetch c now then (record c { inflight = true }, true) else (c, false)

unfoldable pub finish_fetch : Checker → ℕ → Option Fetched → Checker
finish_fetch c now got = record c {
  good = elim got [ none ↦ c.good | some g ↦ some g ];
  last_attempt = now;
  last_failed = elim got [ none ↦ true | some g ↦ false ];
  inflight = false;
}

-- releaseURL; `on_github` is whether url.Parse finds an https link on github.com.
unfoldable pub release_url : (String → Bool) → String → String
release_url on_github raw = if on_github raw then raw else ""

-- What the answer for the latest release gives, before the stars are known.
unfoldable pub release_of : (String → Bool) → Option (ℕ × ReleaseDoc) → ℕ → Option Fetched
release_of on_github none now = none
release_of on_github (some (status, rel)) now =
    if status == 404
    then some (record { latest = ""; latest_url = ""; published_at = ""; stars = pos 0; at = now })
    else if status != 200
    then none
    else some (record {
      latest = trim_v rel.tag_name;
      latest_url = release_url on_github rel.html_url;
      published_at = rel.published_at;
      stars = pos 0;
      at = now;
    })

-- fetch: the release, then the repository with its stars.
unfoldable pub fetch :
    (String → Bool) → Option (ℕ × ReleaseDoc) → Option (ℕ × ℤ) → ℕ → Option Fetched
fetch on_github release repo now = elim (release_of on_github release now) [
  | none ↦ none
  | some f ↦ elim repo [
    | none ↦ none
    | some (status, stars) ↦ if status != 200 then none else some (record f { stars = stars })
  ]
]

unfoldable pub status_locked : (String → Option ℤ) → Checker → Status
status_locked atoi c = elim c.good [
  | none ↦ record {
    latest = "";
    latest_url = "";
    published_at = "";
    stars = negsuc 0;
    checked_at = none;
    update_available = false;
    stale = true;
  }
  | some g ↦ record {
    latest = g.latest;
    latest_url = g.latest_url;
    published_at = g.published_at;
    stars = g.stars;
    checked_at = some g.at;
    update_available = (c.current != "dev") && newer atoi g.latest c.current;
    stale = c.last_failed;
  }
]
