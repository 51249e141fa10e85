-- ===== src/Guard/Tests.antt =====
-- Guards at concrete inputs (guard/).
use vagent.Common.{ℕ, refl, String, true, false, [], ◌∷◌, Option, none, some}
use vagent.Guard.{
  input, Message, rewrite_action, Result, pass, block, checked, Guard, guard_loop, run_guards,
}
use vagent.Guard.Chain.{Clears, clear, passes, rewrites, AllClear, run_guards-ok}
use vagent.Guard.Filters.{TopicConfig, ContentFilterConfig}

abbrev say : String → Message ℕ ℕ
say text = record {
  direction = input;
  content = text;
  agent_id = "agent";
  session_id = "session";
  tool_calls = [];
  metadata = none;
}

abbrev agrees : Guard ℕ ℕ ℕ
agrees = record { name = "agrees"; check = λ msg. checked (some pass) }

abbrev hidden : Result
hidden = record {
  action = rewrite_action;
  content = "***";
  reason = "secret";
  violations = "secret" ∷ [];
  guard_name = "hides";
}

abbrev hides : Guard ℕ ℕ ℕ
hides = record { name = "hides"; check = λ msg. checked (some hidden) }

abbrev refusal : Result
refusal = block "refuses" "never" []

abbrev refuses : Guard ℕ ℕ ℕ
refuses = record { name = "refuses"; check = λ msg. checked (some refusal) }

abbrev live : ℕ → Option ℕ
live i = none

abbrev both_clear :
    Clears live 0
      (say "my secret")
      false
      []
      (agrees ∷ hides ∷ [])
      2
      (say "***")
      true
      ("secret" ∷ [])
both_clear = passes {r = pass} refl refl refl (rewrites {r = hidden} refl refl refl clear)

run_guards-ok_example : AllClear live 0 (say "hello") false [] (agrees ∷ []) (say "hello")
run_guards-ok_example =
    run_guards-ok live (say "hello") (say "hello") (agrees ∷ []) pass
      (unfold run_guards guard_loop in refl) (λ e. cc)

abbrev topics : TopicConfig
topics = record {
  allowed_topics = [];
  blocked_topics = "war" ∷ "peace" ∷ [];
  case_sensitive = true;
}

abbrev keywords : ContentFilterConfig
keywords = record { blocked_keywords = "war" ∷ "peace" ∷ []; case_sensitive = false }
