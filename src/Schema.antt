-- ===== src/Schema.antt =====
-- The requests and responses that pass between agents (schema/message.go). A message, the usage of
-- a model, the run options, metadata and errors are opaque here: `schema.Message` wraps the
-- third-party `aimodel.Message`, and `aimodel.Usage` is third-party with its `Add`.
use vagent.Common.{ℕ, ◌+◌, String, List, Option, ◌≡◌, refl, ◌⊎◌, inl, inr}

pub record Types : Type 1 where
  pub Message : Type 0
  pub Usage : Type 0
  pub Options : Type 0
  pub Metadata : Type 0
  pub Error : Type 0
  pub no_usage : Usage
  pub add_usage : Usage → Usage → Usage

pub data StopReason : Type 0 where
  complete token_budget_exhausted max_iterations_exceeded : StopReason

pub record RunRequest (T : Types) : Type 0 where
  pub messages : List T.Message
  pub session_id : String
  pub options : Option T.Options
  pub metadata : Option T.Metadata

pub record RunResponse (T : Types) : Type 0 where
  pub messages : List T.Message
  pub session_id : String
  pub usage : Option T.Usage
  pub duration : ℕ
  pub metadata : Option T.Metadata
  -- `none` stands for the empty string.
  pub stop_reason : Option StopReason

-- Go's pair of a pointer and an error, of which one is nil: the pointer may be nil as well.
pub data Outcome (T : Types) (A : Type 0) : Type 0 where
  ok : A → Outcome T A
  err : T.Error → Outcome T A

pub Outcome-cases :
    {T : Types} {A : Type 0} (o : Outcome T A)
    → ((a : A) × (o ≡ ok a)) ⊎ ((e : T.Error) × (o ≡ err e))
Outcome-cases (ok a) = inl (a, refl)
Outcome-cases (err e) = inr (e, refl)

-- The types for tests: numbers throughout.
abbrev pub number_types : Types
number_types = record {
  Message = ℕ;
  Usage = ℕ;
  Options = ℕ;
  Metadata = ℕ;
  Error = ℕ;
  no_usage = 0;
  add_usage = λ a b. a + b;
}
