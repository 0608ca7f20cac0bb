-- ===== src/Updates/Checker/Tests.antt =====
-- A checker that has an answer of version 2.0.0 at time 0.
use tgproxy_panel.Prelude.{
  first_runes, after_runes, has_prefix, ◌+◌, ◌*◌, ◌≤◌, String, ◌≡◌, refl, ◌≢◌, ◌↔◌, true, false,
  Option, none, some, if◌then◌else◌, ◌==◌, ℤ, pos, nat_eq, string_eq,
}
use tgproxy_panel.Updates.Version.{trim_v}
use tgproxy_panel.Updates.Version.Order.{IsNewer}
use tgproxy_panel.Updates.Checker.{
  Checker, Fetched, ReleaseDoc, begin_fetch, fetch, finish_fetch, needs_fetch, release_of,
  release_url, retry_after, status_locked,
}
use tgproxy_panel.Updates.Checker.Answers.{finish_fetch-begin_fetch, update_available_iff}

abbrev digits : String → Option ℤ
digits p = if p == "0" then some (pos 0) else if p == "2" then some (pos 2) else some (pos 1)

abbrev release : ReleaseDoc
release = record { tag_name = "v2.0.0"; html_url = "https://github.com/o/p"; published_at = "t" }

abbrev answer : Fetched
answer = record {
  latest = "2.0.0";
  latest_url = "https://github.com/o/p";
  published_at = "t";
  stars = pos 7;
  at = 3;
}

abbrev cached : Checker
cached = record {
  ttl = 3600 * 1000000000;
  current = "1.0.0";
  good = some answer;
  last_attempt = 4;
  last_failed = false;
  inflight = false;
}

fetches :
    (fetch (λ u. true) (some (200, release)) (some (200, pos 7)) 3 ≡ some answer)
    × (fetch (λ u. true) (some (200, release)) (some (403, pos 7)) 3 ≡ none)
    × (fetch (λ u. true) (some (500, release)) (some (200, pos 7)) 3 ≡ none)
unfolding fetch release_of release_url trim_v has_prefix first_runes after_runes
fetches = (refl, refl, refl)

finish_fetch-begin_fetch_example : 10 + retry_after ≤ 400 * 1000000000
unfolding begin_fetch needs_fetch finish_fetch
finish_fetch-begin_fetch_example =
    finish_fetch-begin_fetch (record cached { ttl = 1 }) 10 (400 * 1000000000) none refl

update_available_iff_example : ((status_locked digits cached).update_available ≡ true) ↔ (
    (g : Fetched) × (cached.good ≡ some g)
    × (cached.current ≢ "dev")
    × IsNewer digits g.latest cached.current)
update_available_iff_example = update_available_iff digits cached
