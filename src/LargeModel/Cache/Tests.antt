-- ===== src/LargeModel/Cache/Tests.antt =====
-- The response cache at concrete inputs (largemodel/cache.go).
use vagent.Common.{
  ℕ, ◌+◌, ◌≤◌, ◌<◌, ◌≡◌, refl, inr, List, [], ◌∷◌, some, arith, length, lookup, insert, delete,
  sweep, oldest,
}
use vagent.LargeModel.Completer.{Result, ok}
use vagent.LargeModel.Cache.{
  CacheEntry, MapCache, with_max_entries, new_map_cache, get, set, evict_oldest, map_cache,
  cached_chat,
}
use vagent.LargeModel.Cache.Store.{live, length-set-le, set_overwrite_loses}
use vagent.LargeModel.Cache.Kept.{Write, sets, get-sets}
use vagent.LargeModel.Cache.ReadThrough.{cached_twice}

abbrev entry : ℕ → ℕ → CacheEntry ℕ
entry resp at = record { resp = resp; expires_at = at + 100; created_at = at }

abbrev pair : MapCache ℕ
pair = record { entries = ("a", entry 1 10) ∷ ("b", entry 2 20) ∷ []; max_entries = 2 }

new_pair :
    new_map_cache {R = ℕ} (with_max_entries 2 ∷ []) ≡ record { entries = []; max_entries = 2 }
unfolding new_map_cache
new_pair = refl

set_evicts : (set 30 "c" 3 100 pair).entries ≡ ("b", entry 2 20) ∷ ("c", entry 3 30) ∷ []
unfolding set insert sweep oldest delete
set_evicts = refl

abbrev writes : List (Write ℕ)
writes =
    record { at = 40; key = "a"; resp = 4; ttl = 5 }
    ∷ record { at = 90; key = "d"; resp = 5; ttl = 500 }
    ∷ []

get-sets_example :
    get 130 "c" (sets writes (set 30 "c" 3 100 (record pair { max_entries = 5 }))) ≡ some 3
get-sets_example =
    get-sets 30 130 "c" 3 100 writes (record pair { max_entries = 5 }) (omega arith)
      ((refl, omega arith), ((refl, omega arith), tt)) (unfold lookup in (refl, (refl, tt)))
      (inr (omega arith))

length-set-le_example : length (set 30 "c" 3 100 pair).entries ≤ 2
length-set-le_example =
    length-set-le 30 "c" 3 100 pair (unfold lookup in (refl, (refl, tt))) (refl, (refl, tt))
      (omega arith) (omega arith)

set_overwrite_loses_example : length (set 30 "b" 5 100 pair).entries < length (live 30 pair)
set_overwrite_loses_example =
    set_overwrite_loses 30 "b" 5 100 pair {e = entry 2 20} (unfold lookup in (refl, (refl, tt)))
      (refl, (refl, tt)) (omega arith) (unfold sweep in refl)
      (unfold lookup evict_oldest sweep oldest delete in refl)

-- A client that takes 5 time units and answers with its request.
abbrev echo : ℕ → ℕ → Result ℕ ℕ × ℕ
echo q w = (ok q, w + 5)

cached_twice_example :
    let (r, (c, w)) = cached_chat map_cache (λ w. w) (λ q. some "k") 100 echo 7 (pair, 30) in
    (r ≡ ok 7)
    × (w ≡ 35)
    × (cached_chat map_cache (λ w. w) (λ q. some "k") 100 echo 8 (c, 90) ≡ (ok 7, (c, 90)))
cached_twice_example =
    cached_twice (λ w. w) (λ q. some "k") 100 echo 7 8 "k" pair 30 90 refl refl
      (unfold get lookup in refl) refl (omega arith)
