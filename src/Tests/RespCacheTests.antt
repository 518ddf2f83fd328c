-- ===== src/Tests/RespCacheTests.antt =====
-- Tests of Server/RespCache.
use omni_token.Prelude.{ℕ, String, some, ◌≡◌, ◌≢◌, refl}
use omni_token.Server.RespCache.{
  failure, done, waiting, answered, Cache, empty_cache, arrive, finish, wake, Reachable, begins,
  goes_on, arrives,
}
use omni_token.Server.RespCache.Release.{Released, Reachable-Released}

-- Two requests ask for one key at once.
abbrev asked : Cache
asked = arrive 2 "overview" (arrive 1 "overview" empty_cache)

asked-Reachable : Reachable 5 asked
unfolding arrive
asked-Reachable =
    goes_on _ _ (goes_on _ _ begins (arrives 1 "overview" refl refl))
      (arrives 2 "overview" refl refl)

shared :
    (wake 5 2 0 (finish 5 1 "overview" 0 (failure "busy") asked)).phase 2
    ≡ answered (failure "busy")
unfolding wake finish
shared = refl

Reachable-Released_example :
    ((r e : ℕ) → asked.phase r ≡ waiting e → Released 5 asked r e)
    × ((key : String) (e : ℕ) (why : String) (until : ℕ)
        → asked.table key ≡ some e
        → asked.entry e ≢ done (failure why) until)
Reachable-Released_example = Reachable-Released 5 asked asked-Reachable
