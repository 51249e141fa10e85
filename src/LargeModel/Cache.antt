-- ===== src/LargeModel/Cache.antt =====
-- The response cache (largemodel/cache.go): `MapCache`, and the middleware over any cache. The key
-- of a request is a hash of its JSON text, made by the standard library: `key_of` is a parameter,
-- `none` where marshalling fails. Times are nanoseconds; the clock is the argument `now`.
mod Store
mod Kept
mod ReadThrough
mod Tests
use vagent.Common.{
  ℕ, ◌+◌, String, Bool, true, false, not, ◌&&◌, List, [], ◌∷◌, Option, none, some, ltb, leb, length,
  str_eq, lookup, insert, delete, sweep, oldest, if◌then◌else◌,
}
use vagent.LargeModel.Completer.{Result, ok, err, Completer}

pub record CacheEntry (R : Type 0) : Type 0 where
  pub resp : R
  pub expires_at : ℕ
  pub created_at : ℕ

pub record MapCache (R : Type 0) : Type 0 where
  pub entries : List (String × CacheEntry R)
  pub max_entries : ℕ

abbrev pub default_max_entries : ℕ
default_max_entries = 1000

abbrev pub default_cache_ttl : ℕ
default_cache_ttl = 300_000_000_000

abbrev pub with_max_entries : {R : Type 0} → ℕ → MapCache R → MapCache R
with_max_entries n c = record c { max_entries = n }

apply_settings : {R : Type 0} → List (MapCache R → MapCache R) → MapCache R → MapCache R
apply_settings [] c = c
apply_settings (o ∷ os) c = apply_settings os (o c)

unfoldable pub new_map_cache : {R : Type 0} → List (MapCache R → MapCache R) → MapCache R
unfolding apply_settings
new_map_cache settings =
    apply_settings settings (record { entries = []; max_entries = default_max_entries })

-- `now.After(e.expiresAt)`
abbrev pub expired : {R : Type 0} → ℕ → CacheEntry R → Bool
expired now e = ltb e.expires_at now

unfoldable pub get : {R : Type 0} → ℕ → String → MapCache R → Option R
get now key c = elim (lookup key c.entries) [
  | none ↦ none
  | some e ↦ if expired now e then none else some e.resp
]

-- The entry that the second loop of `Set` finds, deleted if there is one.
unfoldable pub evict_oldest :
    {R : Type 0} → List (String × CacheEntry R) → List (String × CacheEntry R)
evict_oldest m =
    let key = (oldest (λ e. true) (λ e. e.created_at) ("", 0) m).0 in
    if str_eq key "" then m else delete key m

unfoldable pub make_room :
    {R : Type 0} → ℕ → List (String × CacheEntry R) → List (String × CacheEntry R)
unfolding evict_oldest
make_room limit m = if ltb 0 limit && leb limit (length m) then evict_oldest m else m

unfoldable pub set : {R : Type 0} → ℕ → String → R → ℕ → MapCache R → MapCache R
unfolding make_room
set now key resp ttl c =
    let live = sweep (λ e. not (expired now e)) c.entries in
    let entry : CacheEntry _ = record { resp = resp; expires_at = now + ttl; created_at = now } in
    record c { entries = insert key entry (make_room c.max_entries live) }

-- The interface `Cache`, over a state `C`.
pub record Cache (C R : Type 0) : Type 0 where
  pub read : ℕ → String → C → Option R
  pub write : ℕ → String → R → ℕ → C → C

unfoldable pub map_cache : {R : Type 0} → Cache (MapCache R) R
unfolding get set
map_cache = record { read = get; write = set }

-- The chat call of `Wrap`.
unfoldable pub cached_chat :
    {Q R E C W : Type 0}
    → Cache C R
    → (W → ℕ)
    → (Q → Option String)
    → ℕ
    → (Q → W → Result E R × W)
    → Q
    → C × W
    → Result E R × (C × W)
cached_chat cache now key_of ttl next q (c, w) = elim (key_of q) [
  | none ↦ let (r, w') = next q w in (r, (c, w'))
  | some key ↦ elim (cache.read (now w) key c) [
    | some resp ↦ (ok resp, (c, w))
    | none ↦
        let (r, w') = next q w in
        elim r [
          | ok resp ↦ (ok resp, (cache.write (now w') key resp ttl c, w'))
          | err e ↦ (err e, (c, w'))
        ]
  ]
]

-- Streams pass through.
unfoldable pub wrap :
    {Q R S E C W : Type 0}
    → Cache C R
    → (W → ℕ)
    → (Q → Option String)
    → ℕ
    → Completer Q R S E W
    → Completer Q R S E (C × W)
unfolding cached_chat
wrap cache now key_of ttl next = record {
  chat = cached_chat cache now key_of ttl next.chat;
  stream = λ q s. let (r, w') = next.stream q s.1 in (r, (s.0, w'));
}
