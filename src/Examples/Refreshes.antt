-- ===== src/Examples/Refreshes.antt =====
-- The theorems on shared refreshes, after two requests have asked for one.
use full_revna_like_projekt.Http.Sharing.{
  Sharing, refresh_session_once, unshared, Event, Shared, OneRefresh, GivenTheOne,
  Shared-OneRefresh,
}

abbrev asked_twice : Sharing
asked_twice = (refresh_session_once (refresh_session_once unshared).0).0

asked_twice-Shared : Shared asked_twice
asked_twice-Shared =
    Shared.goes_on (Shared.goes_on Shared.begins (Event.asks unshared))
      (Event.asks (refresh_session_once unshared).0)

Shared-OneRefresh_example : OneRefresh asked_twice × GivenTheOne asked_twice
Shared-OneRefresh_example = Shared-OneRefresh asked_twice asked_twice-Shared
