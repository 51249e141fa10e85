-- ===== src/LargeModel/Cache/ReadThrough.antt =====
-- The cache middleware over `MapCache` (largemodel/cache.go).
use vagent.Common.{ℕ, ◌+◌, ◌≤◌, ◌≡◌, String, Option, none, some, arith}
use vagent.LargeModel.Completer.{Result, ok, err, Failure}
use vagent.LargeModel.Cache.{MapCache, get, map_cache, cached_chat}
use vagent.LargeModel.Cache.Store.{get-set}

module _ {Q E R W : Type 0} (now : W → ℕ) (key_of : Q → Option String) (ttl : ℕ)
    (next : Q → W → Result E R × W) where
  -- A miss that the client answers is stored: until its time to live is over, a request with the
  -- same key is answered with the same response, without a call of the client, whatever happened
  -- outside the cache in between.
  pub cached_twice :
      (q q' : Q) (key : String) (c : MapCache R) (w w' : W) {resp : R}
      → key_of q ≡ some key
      → key_of q' ≡ some key
      → get (now w) key c ≡ none
      → (next q w).0 ≡ ok resp
      → now w' ≤ now (next q w).1 + ttl
      → let (r, (c', w'')) = cached_chat map_cache now key_of ttl next q (c, w) in
        (r ≡ ok resp)
        × (w'' ≡ (next q w).1)
        × (cached_chat map_cache now key_of ttl next q' (c', w') ≡ (ok resp, (c', w')))
  unfolding cached_chat map_cache
  cached_twice q q' key c w w' {resp} hk hk' miss answered fresh =
      ground (arith, get-set (now (next q w).1) (now w') key resp ttl c fresh)

  -- A failure is returned and leaves the cache as it was.
  cached_error :
      (q : Q) (key : String) (c : MapCache R) (w : W) {e : Failure E}
      → key_of q ≡ some key
      → get (now w) key c ≡ none
      → (next q w).0 ≡ err e
      → cached_chat map_cache now key_of ttl next q (c, w) ≡ (err e, (c, (next q w).1))
  unfolding cached_chat map_cache
  cached_error q key c w hk miss failed = ground arith
