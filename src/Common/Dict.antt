-- ===== src/Common/Dict.antt =====
-- Go's `map[string]V` as an association list. The order of the list stands for the order in which
-- a `range` loop meets the entries, which Go leaves open: statements hold for every list.
use Prim.Native.Nat.{suc, ◌≤◌, ◌<◌}
use Prim.Native.String.{String}
use mathlib.Core.Path.{◌≡◌, refl}
use mathlib.Core.Bool.{Bool}
use mathlib.Core.List.{List, [], ◌∷◌}
use mathlib.Core.Option.{Option, none, some}
use native.Mathlib.Omega.{arith}
use text.Mathlib.Text.{◌==◌ as str_eq}
use text.Mathlib.TextEquality.{eq_iff}
use vagent.Common.Tests.{if◌then◌else◌}
use vagent.Common.Lists.{length}

module _ {ℓ} {V : Type ℓ} where
  -- `m[key]`, with `none` for a key that is not there.
  unfoldable pub lookup : String → List (String × V) → Option V
  lookup key [] = none
  lookup key (entry ∷ rest) = if str_eq entry.0 key then some entry.1 else lookup key rest

  -- `m[key] = value`
  unfoldable pub insert : String → V → List (String × V) → List (String × V)
  insert key value [] = (key, value) ∷ []
  insert key value (entry ∷ rest) =
      let later = insert key value rest in
      if str_eq entry.0 key then (key, value) ∷ rest else entry ∷ later

  -- `delete(m, key)`
  unfoldable pub delete : String → List (String × V) → List (String × V)
  delete key [] = []
  delete key (entry ∷ rest) =
      let others = delete key rest in if str_eq entry.0 key then others else entry ∷ others

  -- No key stands twice, as in every Go map.
  abbrev pub IsDistinct : List (String × V) → Type ℓ
  IsDistinct [] = Unit
  IsDistinct (e ∷ m) = (lookup e.0 m ≡ none) × IsDistinct m

module _ {ℓ} {V : Type ℓ} where
  -- A read after a write.
  pub lookup-insert :
      (key other : String) (value : V) (entries : List (String × V))
      → lookup other (insert key value entries)
        ≡ (if str_eq key other then some value else lookup other entries)
  unfolding insert lookup
  lookup-insert key other value [] = refl
  lookup-insert key other value (entry ∷ rest) =
      let later = lookup-insert key other value rest in
      ground (arith, later, eq_iff entry.0 key, eq_iff entry.0 other, eq_iff key other)

  -- A read after a deletion.
  pub lookup-delete :
      (key other : String) (entries : List (String × V))
      → lookup other (delete key entries)
        ≡ (if str_eq key other then none else lookup other entries)
  unfolding delete lookup
  lookup-delete key other [] = ground arith
  lookup-delete key other (entry ∷ rest) =
      let later = lookup-delete key other rest in
      ground (arith, later, eq_iff entry.0 key, eq_iff entry.0 other, eq_iff key other)

  pub length-delete-le : (k : String) (m : List (String × V)) → length (delete k m) ≤ length m
  unfolding delete
  length-delete-le k [] = omega arith
  length-delete-le k (e ∷ m) = ground (arith, length-delete-le k m)

  -- A key that is there makes room when it is deleted.
  pub length-delete-lt :
      (k : String) (m : List (String × V)) {v : V}
      → lookup k m ≡ some v
      → length (delete k m) < length m
  unfolding lookup delete
  length-delete-lt k [] h = cc
  length-delete-lt k (e ∷ m) {v} h =
      ground (arith, length-delete-le k m, length-delete-lt k m {v = v})

  pub length-insert_new :
      (k : String) (v : V) (m : List (String × V))
      → lookup k m ≡ none
      → length (insert k v m) ≡ suc (length m)
  unfolding lookup insert
  length-insert_new k v [] h = refl
  length-insert_new k v (e ∷ m) h = ground (arith, length-insert_new k v m)

  pub length-insert_old :
      (k : String) (v : V) (m : List (String × V)) {w : V}
      → lookup k m ≡ some w
      → length (insert k v m) ≡ length m
  unfolding lookup insert
  length-insert_old k v [] h = cc
  length-insert_old k v (e ∷ m) {w} h = ground (arith, length-insert_old k v m {w = w})

  pub length-insert-le :
      (k : String) (v : V) (m : List (String × V)) → length (insert k v m) ≤ suc (length m)
  unfolding insert
  length-insert-le k v [] = omega arith
  length-insert-le k v (e ∷ m) = ground (arith, length-insert-le k v m)

  pub delete_absent : (k : String) (m : List (String × V)) → lookup k m ≡ none → delete k m ≡ m
  unfolding lookup delete
  delete_absent k [] h = refl
  delete_absent k (e ∷ m) h = ground (arith, delete_absent k m)

  pub delete-IsDistinct :
      (k : String) (m : List (String × V)) → IsDistinct m → IsDistinct (delete k m)
  unfolding delete
  delete-IsDistinct k [] d = tt
  delete-IsDistinct k (e ∷ m) d = ground (arith, delete-IsDistinct k m d.1, lookup-delete k e.0 m)

  pub insert-IsDistinct :
      (k : String) (v : V) (m : List (String × V)) → IsDistinct m → IsDistinct (insert k v m)
  unfolding insert lookup
  insert-IsDistinct k v [] d = (refl, tt)
  insert-IsDistinct k v (e ∷ m) d =
      ground
        (arith, insert-IsDistinct k v m d.1, lookup-insert k e.0 v m, eq_iff e.0 k, eq_iff k e.0)

module _ {ℓ} {V : Type ℓ} where
  -- The entries whose value passes a test: what is left when a loop deletes the others.
  unfoldable pub sweep : (V → Bool) → List (String × V) → List (String × V)
  sweep p [] = []
  sweep p ((k, v) ∷ m) = let rest = sweep p m in if p v then (k, v) ∷ rest else rest

  abbrev pub keep_if : (V → Bool) → Option V → Option V
  keep_if p none = none
  keep_if p (some v) = if p v then some v else none

  pub lookup-sweep :
      (p : V → Bool) (j : String) (m : List (String × V))
      → IsDistinct m
      → lookup j (sweep p m) ≡ keep_if p (lookup j m)
  unfolding lookup sweep
  lookup-sweep p j [] d = refl
  lookup-sweep p j (e ∷ m) d = ground (arith, lookup-sweep p j m d.1, eq_iff e.0 j)

  pub length-sweep-le : (p : V → Bool) (m : List (String × V)) → length (sweep p m) ≤ length m
  unfolding sweep
  length-sweep-le p [] = omega arith
  length-sweep-le p (e ∷ m) = ground (arith, length-sweep-le p m)

  pub sweep-IsDistinct :
      (p : V → Bool) (m : List (String × V)) → IsDistinct m → IsDistinct (sweep p m)
  unfolding sweep
  sweep-IsDistinct p [] d = tt
  sweep-IsDistinct p (e ∷ m) d = ground (arith, sweep-IsDistinct p m d.1, lookup-sweep p e.0 m d.1)
