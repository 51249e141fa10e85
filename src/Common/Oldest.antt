-- ===== src/Common/Oldest.antt =====
-- The search for the oldest entry of a map, which two stores of the program write out: the loop of
-- `MapCache.Set` (largemodel/cache.go) and that of `evictOneLocked` (service/task.go). The empty
-- key stands for "none found yet".
use Prim.Native.Nat.{ℕ, ◌≤◌}
use Prim.Native.String.{String}
use mathlib.Core.Path.{◌≡◌, refl}
use mathlib.Core.Logic.{◌⊎◌, inl, inr}
use mathlib.Core.Bool.{Bool, true, false, ◌&&◌, ◌||◌}
use mathlib.Core.List.{List, [], ◌∷◌}
use mathlib.Core.Option.{some}
use native.Mathlib.Omega.{arith}
use text.Mathlib.Text.{◌==◌ as str_eq}
use text.Mathlib.TextEquality.{eq_iff}
use vagent.Common.Tests.{ltb, if◌then◌else◌, Bool-cases}
use vagent.Common.Lists.{All}
use vagent.Common.Dict.{lookup, IsDistinct}

module _ {ℓ} {V : Type ℓ} (eligible : V → Bool) (time : V → ℕ) where
  -- The body of the loop: the best entry so far, and the next one.
  abbrev pub older : String × ℕ → String → V → String × ℕ
  older best k v =
      if eligible v && (str_eq best.0 "" || ltb (time v) best.1) then (k, time v) else best

  unfoldable pub oldest : String × ℕ → List (String × V) → String × ℕ
  oldest best [] = best
  oldest best ((k, v) ∷ m) = oldest (older best k v) m

  abbrev pub any_eligible : List (String × V) → Bool
  any_eligible [] = false
  any_eligible (e ∷ m) = eligible e.1 || any_eligible m

-- No entry has the empty key.
abbrev pub IsNamed {ℓ} : {V : Type ℓ} → List (String × V) → Type 0
IsNamed [] = Unit
IsNamed (e ∷ m) = (str_eq e.0 "" ≡ false) × IsNamed m

module _ {ℓ} {V : Type ℓ} (eligible : V → Bool) (time : V → ℕ) where
  oldest-kept :
      (best : String × ℕ) (m : List (String × V))
      → IsNamed m
      → str_eq best.0 "" ≡ false
      → str_eq (oldest eligible time best m).0 "" ≡ false
  unfolding oldest
  oldest-kept best [] n h = h
  oldest-kept best (e ∷ m) n h = oldest-kept (older eligible time best e.0 e.1) m n.1 (ground arith)

  -- If an entry is eligible, one is found.
  pub oldest-found :
      (best : String × ℕ) (m : List (String × V))
      → IsNamed m
      → any_eligible eligible time m ≡ true
      → str_eq (oldest eligible time best m).0 "" ≡ false
  unfolding oldest
  oldest-found best [] n h = cc
  oldest-found best (e ∷ m) n h = elim (Bool-cases (eligible e.1)) [
    | inl fits ↦ elim (Bool-cases (str_eq best.0 "")) [
      | inl none_yet ↦ oldest-kept (older eligible time best e.0 e.1) m n.1 (ground arith)
      | inr some_yet ↦ oldest-kept (older eligible time best e.0 e.1) m n.1 (ground arith)
    ]
    | inr other ↦ oldest-found (older eligible time best e.0 e.1) m n.1 (ground arith)
  ]

  -- What is found is the start of the search or an eligible entry of the map.
  pub oldest-source :
      (best : String × ℕ) (m : List (String × V))
      → IsDistinct m
      → (oldest eligible time best m ≡ best)
        ⊎ ((v : V) × (lookup (oldest eligible time best m).0 m ≡ some v)
            × (eligible v ≡ true)
            × (time v ≡ (oldest eligible time best m).1))
  unfolding oldest lookup
  oldest-source best [] d = inl refl
  oldest-source best (e ∷ m) d =
      let next = older eligible time best e.0 e.1 in
      let found = oldest eligible time next m in
      elim (oldest-source next m d.1) [
        | inr (v, at, fits, age) ↦ inr (v, ground (arith, eq_iff e.0 found.0), fits, age)
        | inl same ↦
            elim (Bool-cases (eligible e.1 && (str_eq best.0 "" || ltb (time e.1) best.1))) [
              | inl taken ↦ inr (
                e.1,
                ground (arith, eq_iff e.0 found.0, eq_iff e.0 e.0),
                ground arith,
                ground arith,
              )
              | inr passed ↦ inl (ground arith)
            ]
      ]

  oldest-le :
      (best : String × ℕ) (m : List (String × V))
      → IsNamed m
      → str_eq best.0 "" ≡ false
      → (oldest eligible time best m).1 ≤ best.1
  unfolding oldest
  oldest-le best [] n h = omega arith
  oldest-le best (e ∷ m) n h = ground (arith, oldest-le (older eligible time best e.0 e.1) m n.1)

  -- No eligible entry is older.
  pub oldest-min :
      (best : String × ℕ) (m : List (String × V))
      → IsNamed m
      → All (λ e. eligible e.1 ≡ true → (oldest eligible time best m).1 ≤ time e.1) m
  unfolding oldest
  oldest-min best [] n = tt
  oldest-min best (e ∷ m) n = (
    λ fits. ground (arith, oldest-le (older eligible time best e.0 e.1) m n.1),
    oldest-min (older eligible time best e.0 e.1) m n.1,
  )

  -- A search that starts with nothing finds an eligible entry, if there is one.
  pub oldest-present :
      (m : List (String × V))
      → IsDistinct m
      → IsNamed m
      → any_eligible eligible time m ≡ true
      → (v : V) × (lookup (oldest eligible time ("", 0) m).0 m ≡ some v)
        × (eligible v ≡ true)
        × (time v ≡ (oldest eligible time ("", 0) m).1)
  oldest-present m d n h = elim (oldest-source ("", 0) m d) [
    | inl same ↦ let named = rw same at (oldest-found ("", 0) m n h) in absurd (unnamed named)
    | inr found ↦ found
  ]
    where
      unnamed : str_eq "" "" ≡ false → ⊥
      unnamed e = cc
