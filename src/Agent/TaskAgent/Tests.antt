-- ===== src/Agent/TaskAgent/Tests.antt =====
-- Runs of a task agent with one tool (agent/taskagent/task.go).
use mathlib.Core.Path.{subst}
use vagent.Common.{
  ℕ, ◌+◌, ◌<◌, ◌≡◌, refl, String, Bool, true, false, List, [], ◌∷◌, ◌++◌, none, some, All, arith,
  if◌then◌else◌,
}
use vagent.Schema.{RunRequest, complete}
use vagent.Guard.{Result, block, pass, checked, Guard}
use vagent.Guard.Chain.{passes, clear}
use vagent.Tool.Registry.{ToolDef, answered, is_listed}
use vagent.Agent.Chat.{
  Chat, new_assistant_message, agent_types, ChatRequest, ChatResponse, Completion, completed,
  ToolResult,
}
use vagent.Agent.TaskAgent.{Agent, ToolRegistry, SkillDef}
use vagent.Agent.TaskAgent.Skills.{merge_skill_tool_filter, prepared_tools}
use vagent.Agent.TaskAgent.Skills.Merge.{some_allows, prepared_tools-All, prepared_tools_disjoint}
use vagent.Agent.TaskAgent.Prepare.{resolve_run_params}
use vagent.Agent.TaskAgent.Run.{RunContext, run, aborted, input_blocked, finalize_run}
use vagent.Agent.TaskAgent.Run.Requests.{IsUntouched}
use vagent.Agent.TaskAgent.Run.Conversation.{Conversation}
use vagent.Agent.TaskAgent.Run.Spending.{Counts}
use vagent.Agent.TaskAgent.Run.Whole.{run-spending}
use vagent.Agent.TaskAgent.Run.Blocked.{run_blocked, finalize_run_blocked}

-- Texts with the IDs of their calls; each completion takes 4 tokens.
abbrev pub talk : Chat
talk = record {
  Message = String × List String;
  ToolCall = String;
  Usage = ℕ;
  Temperature = ℕ;
  Metadata = ℕ;
  Parameters = ℕ;
  Error = ℕ;
  empty_message = ("", []);
  text = λ m. m.0;
  tool_calls = λ m. m.1;
  is_user = λ m. true;
  is_system = λ m. false;
  with_text = λ t m. (t, m.1);
  system_message = λ t. (t, []);
  tool_message = λ id t. (t, []);
  call_id = λ id. id;
  call_name = λ id. id;
  call_arguments = λ id. "";
  no_usage = 0;
  add_usage = λ m n. m + n;
  total_tokens = λ n. n;
}

abbrev done : ToolResult
done = record { tool_call_id = ""; content = (true, "done") ∷ []; is_error = false }

abbrev offered : String → ToolDef ℕ
offered name = record {
  name = name;
  description = "";
  parameters = 0;
  force_use = false;
  source = "";
  mcp_server_uri = "";
  agent_id = "";
  read_only = false;
}

abbrev both : List (ToolDef ℕ)
both = offered "look" ∷ offered "write" ∷ []

abbrev tools : {W : Type 0} → ToolRegistry talk W
tools = record {
  list = both;
  execute = λ name args w. (answered done, w);
  error_text = λ e. "error";
}

-- A first answer that calls a tool, and then one that does not.
abbrev pub answer : Bool → ChatResponse talk
answer first = record {
  usage = 4;
  choices =
      record {
        message = if first then ("looking", "call" ∷ []) else ("found", []);
        calls_tools = first;
      }
      ∷ [];
}

abbrev pub agent :
    {W : Type 0}
    → (ChatRequest talk → W → Completion talk × W)
    → List (Guard ToolResult ℕ ℕ)
    → List (Guard ToolResult ℕ ℕ)
    → Agent talk W
agent chat inputs outputs = record {
  id = "agent";
  system_prompt = none;
  prompt_error = 0;
  model = "model";
  chat_completer = some chat;
  tool_registry = some tools;
  memory_manager = none;
  max_iterations = 3;
  run_token_budget = 5;
  max_tokens = none;
  temperature = none;
  dispatch = λ e w. w;
  input_guards = inputs;
  output_guards = outputs;
  guard_polls = λ w i. none;
  active_skills = λ s. [];
  skill_text = λ s. "";
  now = λ w. 0;
  no_registry_text = λ n. "none";
}

abbrev pub ask : RunRequest (agent_types talk)
ask = record {
  messages = record { message = ("where", []); agent_id = ""; timestamp = 0; metadata = none } ∷ [];
  session_id = "session";
  options = none;
  metadata = none;
}

abbrev logged :
    ChatRequest talk → List (ChatRequest talk) → Completion talk × List (ChatRequest talk)
logged q [] = (completed (answer true), q ∷ [])
logged q (p ∷ ps) = (completed (answer false), p ∷ (ps ++ q ∷ []))

pub untouched :
    {W L : Type 0} (chat : ChatRequest talk → W → Completion talk × W)
    (inputs outputs : List (Guard ToolResult ℕ ℕ)) (log : W → L)
    → IsUntouched (agent chat inputs outputs) log
untouched chat inputs outputs log = record {
  by_dispatch = λ e w. refl;
  by_tools = λ r name args w there.
      let same : tools ≡ r = cc in subst (λ x. log (x.execute name args w).1 ≡ log w) same refl;
  by_prompt = λ render w there. cc;
  by_session = λ mem list w there held. cc;
  by_compression = λ mem compress ms w there held. cc;
  by_promotion = λ mem entries w there. cc;
}

abbrev looker : Agent talk (List (ChatRequest talk))
looker = agent logged [] []

-- A model that counts its tokens, 4 in each response, and always calls a tool.
abbrev counting : ChatRequest talk → ℕ → Completion talk × ℕ
counting q w = (completed (answer true), w + 4)

Counts_lem : Counts counting (λ w. w) 4
Counts_lem = record {
  counted = λ q w resp same. (ground (arith, same), ground (arith, same));
  uncounted = λ q w e same. cc;
}

run-spending_example :
    (run (agent counting [] []) ask 7).1
    < 7 + (resolve_run_params (agent counting [] []) none).run_token_budget + 4
run-spending_example =
    run-spending (agent counting [] []) counting (λ w. w) 4 ask 7
      (untouched counting [] [] (λ w. w)) Counts_lem refl (unfold resolve_run_params in omega arith)

abbrev pub refusal : Result
refusal = block "refuses" "never" []

abbrev pub refuses : Guard ToolResult ℕ ℕ
refuses = record { name = "refuses"; check = λ msg. checked (some refusal) }

abbrev agrees : Guard ToolResult ℕ ℕ
agrees = record { name = "agrees"; check = λ msg. checked (some pass) }

run_blocked_example :
    run (agent counting (agrees ∷ refuses ∷ []) []) ask 7 ≡ (aborted (input_blocked refusal), 7)
run_blocked_example =
    run_blocked (agent counting (agrees ∷ refuses ∷ []) []) {chat = counting} ask 7 []
      (record { message = ("where", []); agent_id = ""; timestamp = 0; metadata = none }) []
      (agrees ∷ []) refuses [] refusal refl refl refl tt refl
      (1, _, false, [], passes {r = pass} refl refl refl clear, refl, refl, refl)

abbrev pub ending : RunContext talk
ending = record {
  session_id = "session";
  start = 0;
  tracker = record { budget = 5; consumed = 4 };
  total_usage = 4;
  session_msg_count = 0;
  req_msgs = [];
  last_msg = ("secret", []);
  iteration = 0;
}

finalize_run_blocked_example :
    (finalize_run (agent counting [] (refuses ∷ [])) ending complete 7).0.messages
    ≡ new_assistant_message 0 ("secret", []) "agent" ∷ []
finalize_run_blocked_example =
    finalize_run_blocked (agent counting [] (refuses ∷ [])) ending 7 [] refuses [] refusal refl
      (0, _, false, [], clear, refl, refl, refl)

abbrev skill : List String → SkillDef
skill allowed = record { name = "skill"; instructions = ""; allowed_tools = allowed }

prepared_tools-All_example :
    All
      (λ d.
        (is_listed ("look" ∷ []) d.name ≡ true)
        × (some_allows (skill ("look" ∷ "write" ∷ []) ∷ []) d.name ≡ true))
      (prepared_tools both (skill ("look" ∷ "write" ∷ []) ∷ []) ("look" ∷ []))
prepared_tools-All_example =
    prepared_tools-All both (skill ("look" ∷ "write" ∷ [])) [] "look" [] (omega arith, tt)
      (unfold merge_skill_tool_filter in λ e. cc)

prepared_tools_disjoint_example :
    prepared_tools both (skill ("look" ∷ []) ∷ []) ("write" ∷ []) ≡ both
prepared_tools_disjoint_example =
    prepared_tools_disjoint both (skill ("look" ∷ [])) [] "write" [] (omega arith, tt)
      ((refl, tt), tt)
