-- ===== src/Memory/MapStore/Expiry.antt =====
-- Reads and the time to live (memory/mapstore.go).
use vagent.Common.{
  ℕ, ◌-◌, ◌*◌, ◌≤◌, ◌<◌, ◌≡◌, ◌⊎◌, inl, inr, String, Bool, not, List, none, some, Option-cases,
  arith, eq_iff, lookup, insert, lookup-insert, lookup-delete, lookup-sweep, IsDistinct,
}
use vagent.Memory.MapStore.{StoreRecord, is_expired, get, set, list_store}

module _ {V : Type 0} where
  -- A value that was set is read back while its time to live lasts, and one set for 0 seconds is
  -- read back at any later time.
  get-set_live :
      (now later : ℕ) (key : String) (value : V) (ttl : ℕ) (s : List (String × StoreRecord V))
      → (ttl ≡ 0) ⊎ (later - now ≤ ttl * 1000000000)
      → (get later key (set now key value ttl s)).1 ≡ some value
  unfolding get set
  get-set_live now later key value ttl s h =
      let r : StoreRecord V = record { value = value; created_at = now; ttl = ttl } in
      ground (arith, lookup-insert key key r s, eq_iff key key)

  -- Once the time to live has run out, a read finds nothing and takes the record out of the store.
  get-set_expired :
      (now later : ℕ) (key : String) (value : V) (ttl : ℕ) (s : List (String × StoreRecord V))
      → 0 < ttl
      → ttl * 1000000000 < later - now
      → let (s', found) = get later key (set now key value ttl s) in
        (found ≡ none) × (lookup key s' ≡ none)
  unfolding get set
  get-set_expired now later key value ttl s h old =
      let r : StoreRecord V = record { value = value; created_at = now; ttl = ttl } in
      ground
        (arith, lookup-insert key key r s, lookup-delete key key (insert key r s), eq_iff key key)

  -- In a store with distinct keys, listing takes only expired records out: a read at the same time
  -- gives what it gave before.
  get-list_store :
      (has_prefix : String → String → Bool) (now : ℕ) (prefix key : String)
      (s : List (String × StoreRecord V))
      → IsDistinct s
      → (get now key (list_store has_prefix now prefix s).0).1 ≡ (get now key s).1
  unfolding get list_store
  get-list_store has_prefix now prefix key s d =
      let kept = lookup-sweep (λ r. not (is_expired now r)) key s d in
      elim (Option-cases (lookup key s)) [
        | inl gone ↦ ground (arith, kept, gone)
        | inr (r, at) ↦ ground (arith, kept, at)
      ]
