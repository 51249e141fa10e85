-- ===== src/Memory/MapStore.antt =====
-- The in-memory store (memory/mapstore.go). Time is in nanoseconds, a time to live in seconds, 0 for
-- none (Go takes a negative one as none too). Values `V` are opaque. `has_prefix` stands for
-- `strings.HasPrefix`.
pub mod Expiry
use vagent.Common.{
  ℕ, ◌+◌, ◌-◌, ◌*◌, ltb, String, Bool, true, false, not, ◌&&◌, List, [], ◌∷◌, Option, none, some,
  lookup, insert, delete, sweep, if◌then◌else◌,
}

pub record StoreRecord (V : Type 0) : Type 0 where
  pub value : V
  pub created_at : ℕ
  pub ttl : ℕ

pub record StoreEntry (V : Type 0) : Type 0 where
  pub key : String
  pub value : V
  pub created_at : ℕ
  pub ttl : ℕ

module _ {V : Type 0} where
  abbrev pub is_expired : ℕ → StoreRecord V → Bool
  is_expired now r = ltb 0 r.ttl && ltb (r.ttl * 1000000000) (now - r.created_at)

  -- `Get`: the new map and the value found.
  unfoldable pub get :
      ℕ → String → List (String × StoreRecord V) → List (String × StoreRecord V) × Option V
  get now key s = elim (lookup key s) [
    | none ↦ (s, none)
    | some r ↦ if is_expired now r then (delete key s, none) else (s, some r.value)
  ]

  unfoldable pub set :
      ℕ → String → V → ℕ → List (String × StoreRecord V) → List (String × StoreRecord V)
  set now key value ttl s = insert key (record { value = value; created_at = now; ttl = ttl }) s

  unfoldable pub delete_key : String → List (String × StoreRecord V) → List (String × StoreRecord V)
  delete_key key s = delete key s

  abbrev pub clear : List (String × StoreRecord V) → List (String × StoreRecord V)
  clear s = []

  -- `SetCreatedAtForTest`, a helper of Go's tests.
  unfoldable pub set_created_at_for_test :
      String → ℕ → List (String × StoreRecord V) → List (String × StoreRecord V)
  set_created_at_for_test key at s = elim (lookup key s) [
    | none ↦ s
    | some r ↦ insert key (record r { created_at = at }) s
  ]

  -- `BatchGet`: the new map and the values found.
  unfoldable pub batch_get :
      (ℕ → ℕ)
      → ℕ
      → List String
      → List (String × V)
      → List (String × StoreRecord V)
      → List (String × StoreRecord V) × List (String × V)
  unfolding get
  batch_get clock i [] result s = (s, result)
  batch_get clock i (key ∷ keys) result s =
      let (s', found) = get (clock i) key s in
      elim found [
        | none ↦ batch_get clock (i + 1) keys result s'
        | some v ↦ batch_get clock (i + 1) keys (insert key v result) s'
      ]

  unfoldable pub batch_set :
      ℕ → List (String × V) → ℕ → List (String × StoreRecord V) → List (String × StoreRecord V)
  unfolding set
  batch_set now [] ttl s = s
  batch_set now ((key, value) ∷ entries) ttl s = batch_set now entries ttl (set now key value ttl s)

  abbrev pub entry_of : String → StoreRecord V → StoreEntry V
  entry_of key r = record { key = key; value = r.value; created_at = r.created_at; ttl = r.ttl }

  -- The entries of `List`, in the order of the map.
  unfoldable pub list_entries :
      (String → String → Bool) → ℕ → String → List (String × StoreRecord V) → List (StoreEntry V)
  list_entries has_prefix now prefix [] = []
  list_entries has_prefix now prefix ((key, r) ∷ s) =
      let rest = list_entries has_prefix now prefix s in
      if is_expired now r
      then rest
      else (if has_prefix key prefix then entry_of key r ∷ rest else rest)

  -- `List`: the map without the expired records, and the entries.
  unfoldable pub list_store :
      (String → String → Bool)
      → ℕ
      → String
      → List (String × StoreRecord V)
      → List (String × StoreRecord V) × List (StoreEntry V)
  unfolding list_entries
  list_store has_prefix now prefix s =
      (sweep (λ r. not (is_expired now r)) s, list_entries has_prefix now prefix s)
