-- ===== src/LargeModel/Cache/Store.antt =====
-- What `MapCache` promises (largemodel/cache.go).
use vagent.Common.{
  ℕ, ◌+◌, ◌≤◌, ◌<◌, ◌≡◌, ◌⊎◌, refl, String, Bool, true, false, not, List, [], ◌∷◌, none, some,
  arith, length, str_eq, eq_iff, lookup, sweep, IsDistinct, lookup-insert, lookup-delete,
  lookup-sweep, length-sweep-le, length-delete-lt, length-insert-le, length-insert_old,
  sweep-IsDistinct, IsNamed, oldest, oldest-found, oldest-min, oldest-present, All, All-imply,
}
use vagent.LargeModel.Cache.{CacheEntry, MapCache, expired, get, set, evict_oldest, make_room}

module _ {R : Type 0} where
  -- A response that was stored last is found until its time to live is over.
  pub get-set :
      (now later : ℕ) (key : String) (resp : R) (ttl : ℕ) (c : MapCache R)
      → later ≤ now + ttl
      → get later key (set now key resp ttl c) ≡ some resp
  unfolding get set
  get-set now later key resp ttl c h = ground (
    arith,
    eq_iff key key,
    lookup-insert key key (record { resp = resp; expires_at = now + ttl; created_at = now })
        (make_room c.max_entries (sweep (λ e. not (expired now e)) c.entries)),
  )

  abbrev pub live : ℕ → MapCache R → List (String × CacheEntry R)
  live now c = sweep (λ e. not (expired now e)) c.entries

  lookup-make_room :
      (limit : ℕ) (j : String) (m : List (String × CacheEntry R))
      → (lookup j (make_room limit m) ≡ lookup j m) ⊎ (lookup j (make_room limit m) ≡ none)
  unfolding make_room
  lookup-make_room limit j m =
      ground (arith, lookup-delete (oldest (λ e. true) (λ e. e.created_at) ("", 0) m).0 j m)

  -- In a cache whose keys are distinct, a later read of another key gives what it gave without the
  -- write, or nothing: a write never changes the response of another key.
  get-set_other :
      (now later : ℕ) (key j : String) (resp : R) (ttl : ℕ) (c : MapCache R)
      → IsDistinct c.entries
      → str_eq key j ≡ false
      → now ≤ later
      → (get later j (set now key resp ttl c) ≡ get later j c)
        ⊎ (get later j (set now key resp ttl c) ≡ none)
  unfolding get set
  get-set_other now later key j resp ttl c d ne h = ground (
    arith,
    lookup-insert key j (record { resp = resp; expires_at = now + ttl; created_at = now })
        (make_room c.max_entries (live now c)),
    lookup-make_room c.max_entries j (live now c),
    lookup-sweep (λ e. not (expired now e)) j c.entries d,
  )

  sweep-IsNamed :
      (p : CacheEntry R → Bool) (m : List (String × CacheEntry R)) → IsNamed m → IsNamed (sweep p m)
  unfolding sweep
  sweep-IsNamed p [] n = tt
  sweep-IsNamed p (e ∷ m) n = ground (arith, sweep-IsNamed p m n.1)

  length-evict_oldest :
      (m : List (String × CacheEntry R))
      → IsDistinct m
      → IsNamed m
      → 0 < length m
      → length (evict_oldest m) < length m
  unfolding evict_oldest
  length-evict_oldest [] d n h = absurd (omega arith)
  length-evict_oldest (e ∷ m) d n h =
      let present = oldest-present (λ e. true) (λ e. e.created_at) (e ∷ m) d n refl in
      rw (oldest-found (λ e. true) (λ e. e.created_at) ("", 0) (e ∷ m) n refl, evict_oldest)
        (length-delete-lt _ (e ∷ m) present.1)

  length-make_room :
      (limit : ℕ) (m : List (String × CacheEntry R))
      → IsDistinct m
      → IsNamed m
      → 0 < limit
      → length m ≤ limit
      → length (make_room limit m) < limit
  unfolding make_room
  length-make_room limit m d n p h = ground (arith, length-evict_oldest m d n)

  -- With a positive limit and keys that are distinct and not empty, a cache within its limit stays
  -- within it.
  pub length-set-le :
      (now : ℕ) (key : String) (resp : R) (ttl : ℕ) (c : MapCache R)
      → IsDistinct c.entries
      → IsNamed c.entries
      → 0 < c.max_entries
      → length c.entries ≤ c.max_entries
      → length (set now key resp ttl c).entries ≤ c.max_entries
  unfolding set
  length-set-le now key resp ttl c d n p h =
      let q = λ (e : CacheEntry R). not (expired now e) in
      omega (
        arith,
        length-sweep-le q c.entries,
        length-make_room c.max_entries (live now c) (sweep-IsDistinct q c.entries d)
            (sweep-IsNamed q c.entries n) p,
        length-insert-le key (record { resp = resp; expires_at = now + ttl; created_at = now })
            (make_room c.max_entries (live now c)),
      )

  -- From entries with distinct keys that are not empty, at least one, an entry is evicted that is
  -- no younger than any that was there.
  evict_oldest-min :
      (m : List (String × CacheEntry R))
      → IsDistinct m
      → IsNamed m
      → 0 < length m
      → (k : String) × (e : CacheEntry R) × (lookup k m ≡ some e)
        × (lookup k (evict_oldest m) ≡ none)
        × All (λ other. e.created_at ≤ other.1.created_at) m
  unfolding evict_oldest
  evict_oldest-min [] d n h = absurd (omega arith)
  evict_oldest-min (e ∷ m) d n h =
      let time = λ (e : CacheEntry R). e.created_at in
      let k = (oldest (λ e. true) time ("", 0) (e ∷ m)).0 in
      let (v, at, fits, age) = oldest-present (λ e. true) time (e ∷ m) d n refl in
      (
        k,
        v,
        at,
        rw (oldest-found (λ e. true) time ("", 0) (e ∷ m) n refl, evict_oldest)
            (rw (lookup-delete k k (e ∷ m)) (ground (arith, eq_iff k k))),
        All-imply _ _ (λ other le. rw age (le refl)) (e ∷ m)
            (oldest-min (λ e. true) time ("", 0) (e ∷ m) n),
      )

  -- In a cache with distinct keys that are not empty, with a positive limit and as many live
  -- entries as the limit, overwriting a key that stays through the eviction leaves fewer live
  -- entries than before, although no room was needed.
  pub set_overwrite_loses :
      (now : ℕ) (key : String) (resp : R) (ttl : ℕ) (c : MapCache R) {e : CacheEntry R}
      → IsDistinct c.entries
      → IsNamed c.entries
      → 0 < c.max_entries
      → length (live now c) ≡ c.max_entries
      → lookup key (evict_oldest (live now c)) ≡ some e
      → length (set now key resp ttl c).entries < length (live now c)
  unfolding set make_room
  set_overwrite_loses now key resp ttl c d n p full kept =
      let q = λ (e : CacheEntry R). not (expired now e) in
      ground (
        arith,
        length-insert_old key (record { resp = resp; expires_at = now + ttl; created_at = now })
            (evict_oldest (live now c)) kept,
        length-evict_oldest (live now c) (sweep-IsDistinct q c.entries d)
            (sweep-IsNamed q c.entries n),
      )
