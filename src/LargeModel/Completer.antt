-- ===== src/LargeModel/Completer.antt =====
-- The client that the middleware wraps (largemodel/middleware.go). `aimodel.ChatCompleter` is a
-- third-party interface: its requests `Q`, responses `R`, streams `S` and errors `E` are
-- parameters, and `W` is the state of everything behind the call, the clock included.
use vagent.Common.{List, [], ◌∷◌, Option, none, some, ◌≡◌, refl, ◌⊎◌, inl, inr}

-- The errors of the middleware beside those of the client.
pub data Failure (E : Type 0) : Type 0 where
  circuit_open rate_limited : Failure E
  cause : E → Failure E

pub data Result (E R : Type 0) : Type 0 where
  ok : R → Result E R
  err : Failure E → Result E R

pub Result-cases :
    {E R : Type 0} (r : Result E R) → ((a : R) × (r ≡ ok a)) ⊎ ((e : Failure E) × (r ≡ err e))
Result-cases (ok a) = inl (a, refl)
Result-cases (err e) = inr (e, refl)

-- `completerFunc`: a `ChatCompleter` made of two functions.
pub record Completer (Q R S E W : Type 0) : Type 0 where
  pub chat : Q → W → Result E R × W
  pub stream : Q → W → Result E S × W

-- `Middleware` at one type of completers.
abbrev pub Middleware : Type 0 → Type 0
Middleware C = C → C

-- The loop of `Chain` runs from the last middleware to the first.
unfoldable pub chain : {C : Type 0} → C → List (Middleware C) → C
chain base [] = base
chain base (m ∷ ms) = m (chain base ms)

-- The nil entries of the slice are dropped first.
unfoldable pub present : {C : Type 0} → List (Option (Middleware C)) → List (Middleware C)
present [] = []
present (none ∷ ms) = present ms
present (some m ∷ ms) = m ∷ present ms

unfoldable pub default_chain : {C : Type 0} → C → List (Option (Middleware C)) → C
unfolding chain present
default_chain base ms = chain base (present ms)
