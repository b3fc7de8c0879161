-- ===== src/Agent/Demo.antt =====
-- A small world in which the agent loop runs: scripted responses, a log, one tool and a policy that
-- allows it. The tests and the examples of the theorems use it.
use echocoding_harness.Common.{ℕ, ◌+◌, false, true, none, some, List, [], ◌∷◌, ◌++◌, units, decimal}
use echocoding_harness.Contracts.Value.{string, object, end, field}
use echocoding_harness.Contracts.Error.{ok}
use echocoding_harness.Contracts.Event.{Event, ToolCall, FinishReason, SafetyMode}
use echocoding_harness.Agent.Interface.{
  StreamEvent, text_delta, tool_call, Projection, Decision, Execution, Env, Options,
}

pub record World : Type 0 where
  pub replies : List (List StreamEvent)
  pub log : List Event
  pub ids : ℕ

abbrev reply_of : List (List StreamEvent) → List StreamEvent
reply_of [] = []
reply_of (r ∷ _) = r

abbrev later_replies : List (List StreamEvent) → List (List StreamEvent)
later_replies [] = []
later_replies (_ ∷ rs) = rs

abbrev no_messages : Projection
no_messages = record {
  messages = [];
  approximate_tokens = 0;
  omitted_event_count = 0;
  truncations = [];
}

abbrev pub demo_env : Env World
demo_env = record {
  fresh = λ kind w. (decimal w.ids, record w { ids = w.ids + 1 });
  now = λ w. (units "2026", w);
  monotonic = λ w. (w.ids, w);
  aborted = λ w. false;
  append = λ e w. (ok tt, record w { log = w.log ++ e ∷ [] });
  read = λ session w. (ok w.log, w);
  notify = λ e w. w;
  redact = λ t. t;
  build = λ es b. ok no_messages;
  stream =
      λ request w. ((reply_of w.replies, ok tt), record w { replies = later_replies w.replies });
  definitions = λ w. [];
  has = λ name w. true;
  evaluate = λ request w. (ok (Decision.allow (units "read") (units "policy.tool.read")), w);
  approve = none;
  execute = λ name input context w.
      (ok (some (Execution.completed (units "read") (string (units "text")) false)), w);
}

abbrev pub demo_options : Options
demo_options = record {
  model = units "model";
  provider_name = units "fake";
  provider_identity = none;
  workspace_root = units "C:\\work";
  safety_mode = SafetyMode.balanced;
  max_steps = 4;
  repeated_tool_call_limit = none;
  context_budget = record { max_approx_tokens = 1000; reserved_output_tokens = 100 };
  tool_limits = record { timeout_ms = 1000; max_output_chars = 1000 };
}

abbrev pub demo_call : ToolCall
demo_call = record {
  id = units "call-1";
  name = units "read_file";
  arguments = object true (field (units "path") (string (units "a.ts")) end);
}

-- One tool call, then an answer.
abbrev pub demo_world : World
demo_world = record {
  replies =
      (tool_call demo_call ∷ StreamEvent.completed FinishReason.tool_calls ∷ [])
      ∷ (text_delta (units "done") ∷ StreamEvent.completed FinishReason.stop ∷ [])
      ∷ [];
  log = [];
  ids = 0;
}
