-- ===== src/LargeModel/Cache/Kept.antt =====
-- How long `MapCache` keeps a response (largemodel/cache.go).
use vagent.Common.{
  ℕ, suc, ◌+◌, ◌≤◌, ◌≡◌, ◌⊎◌, inl, inr, String, false, not, List, [], ◌∷◌, some, arith, length,
  str_eq, eq_iff, lookup, All, IsDistinct, lookup-insert, lookup-sweep, length-sweep-le,
  length-insert-le, sweep-IsDistinct, insert-IsDistinct,
}
use vagent.LargeModel.Cache.{CacheEntry, MapCache, expired, get, set, make_room}
use vagent.LargeModel.Cache.Store.{live}

-- The arguments of `Set` and its time.
pub record Write (R : Type 0) : Type 0 where
  pub at : ℕ
  pub key : String
  pub resp : R
  pub ttl : ℕ

abbrev pub sets : {R : Type 0} → List (Write R) → MapCache R → MapCache R
sets [] c = c
sets (w ∷ ws) c = sets ws (set w.at w.key w.resp w.ttl c)

module _ {R : Type 0} where
  -- The cache does not bound its entries, or there is room for so many more.
  abbrev pub HasRoom : ℕ → MapCache R → Type 0
  HasRoom n c = (c.max_entries ≡ 0) ⊎ (length c.entries + n ≤ c.max_entries)

  -- A write of another key.
  abbrev pub IsOther : String → ℕ → Write R → Type 0
  IsOther key later w = (str_eq w.key key ≡ false) × (w.at ≤ later)

  make_room_free :
      (now n : ℕ) (c : MapCache R)
      → HasRoom (suc n) c
      → make_room c.max_entries (live now c) ≡ live now c
  unfolding make_room
  make_room_free now n c room =
      let fewer = length-sweep-le (λ e. not (expired now e)) c.entries in
      elim room [
        | inl unbounded ↦ ground (arith, unbounded)
        | inr fits ↦ ground (arith, fits, fewer)
      ]

  set-HasRoom :
      (now n : ℕ) (key : String) (resp : R) (ttl : ℕ) (c : MapCache R)
      → HasRoom (suc n) c
      → HasRoom n (set now key resp ttl c)
  unfolding set
  set-HasRoom now n key resp ttl c room =
      let entry : CacheEntry R = record { resp = resp; expires_at = now + ttl; created_at = now } in
      let fewer = length-sweep-le (λ e. not (expired now e)) c.entries in
      let more = length-insert-le key entry (live now c) in
      elim room [
        | inl unbounded ↦ inl unbounded
        | inr fits ↦ rw (make_room_free now n c (inr fits)) (inr (omega (arith, fits, fewer, more)))
      ]

  set-IsDistinct :
      (now n : ℕ) (key : String) (resp : R) (ttl : ℕ) (c : MapCache R)
      → HasRoom (suc n) c
      → IsDistinct c.entries
      → IsDistinct (set now key resp ttl c).entries
  unfolding set
  set-IsDistinct now n key resp ttl c room d =
      let entry : CacheEntry R = record { resp = resp; expires_at = now + ttl; created_at = now } in
      rw (make_room_free now n c room) (
        insert-IsDistinct key entry (live now c)
          (sweep-IsDistinct (λ e. not (expired now e)) c.entries d))

  sets-lookup :
      (later : ℕ) (key : String) (e : CacheEntry R) (ws : List (Write R)) (c : MapCache R)
      → later ≤ e.expires_at
      → All (IsOther key later) ws
      → IsDistinct c.entries
      → HasRoom (length ws) c
      → lookup key c.entries ≡ some e
      → lookup key (sets ws c).entries ≡ some e
  sets-lookup later key e [] c lives others d room at = at
  sets-lookup later key e (w ∷ ws) c lives others d room at =
      let entry : CacheEntry R = record {
        resp = w.resp;
        expires_at = w.at + w.ttl;
        created_at = w.at;
      } in
      let kept : lookup key (set w.at w.key w.resp w.ttl c).entries ≡ some e =
        unfold set in
        rw (make_room_free w.at (length ws) c room) (
          ground (
            arith,
            others.0,
            at,
            lives,
            lookup-insert w.key key entry (live w.at c),
            lookup-sweep (λ e. not (expired w.at e)) key c.entries d,
          )) in
      sets-lookup later key e ws (set w.at w.key w.resp w.ttl c) lives others.1
        (set-IsDistinct w.at (length ws) w.key w.resp w.ttl c room d)
        (set-HasRoom w.at (length ws) w.key w.resp w.ttl c room) kept

  -- In a cache with distinct keys, a response is found until its time to live is over, after any
  -- writes of other keys up to then, when the cache has no limit or its limit is not passed by the
  -- entries that it had, this one and one for each of these writes.
  pub get-sets :
      (now later : ℕ) (key : String) (resp : R) (ttl : ℕ) (ws : List (Write R)) (c : MapCache R)
      → later ≤ now + ttl
      → All (IsOther key later) ws
      → IsDistinct c.entries
      → HasRoom (suc (length ws)) c
      → get later key (sets ws (set now key resp ttl c)) ≡ some resp
  unfolding get
  get-sets now later key resp ttl ws c lives others d room =
      let entry : CacheEntry R = record { resp = resp; expires_at = now + ttl; created_at = now } in
      let there : lookup key (set now key resp ttl c).entries ≡ some entry =
        unfold set in
        rw (make_room_free now (length ws) c room)
          (ground (arith, eq_iff key key, lookup-insert key key entry (live now c))) in
      let kept =
        sets-lookup later key entry ws (set now key resp ttl c) lives others
          (set-IsDistinct now (length ws) key resp ttl c room d)
          (set-HasRoom now (length ws) key resp ttl c room) there in
      ground (arith, kept, lives)
