-- ===== src/Context/Digests.antt =====
-- context/event-context-builder.ts: `collectStepDigests` and `renderStepDigest`.
use echocoding_harness.Common.{
  ℕ, Bool, true, false, Option, none, some, List, [], ◌∷◌, ◌++◌, leb, if◌then◌else◌, length, take,
  Text, units, decimal,
}
use echocoding_harness.Contracts.Value.{Value}
use echocoding_harness.Contracts.Error.{EchoError, echo, unknown, storage, Outcome, ok, thrown}
use echocoding_harness.Contracts.Json.{stringify}
use echocoding_harness.Contracts.Event.{
  Payload, Event, step_started, model_text, model_text_delta, model_tool_call, tool_completed,
  tool_failed, tool_denied, tool_cancelled,
}
use echocoding_harness.Agent.Calls.{is_blank, failure}
use echocoding_harness.Context.Trim.{approx_tokens_for_value}

infixl 5 ◌>>=◌
abbrev pub ◌>>=◌ : {A B : Type 0} → Outcome A → (A → Outcome B) → Outcome B
ok a >>= f = f a
thrown e >>= f = thrown e

pub data TextKind : Type 0 where
  aggregated delta : TextKind

abbrev pub mixed_text_error : EchoError
mixed_text_error =
    failure storage (units "SESSION_LOG_INVALID")
      (units "The session event log mixes aggregated and incremental text in the same step.")

abbrev pub same_kind : TextKind → TextKind → Bool
same_kind aggregated aggregated = true
same_kind delta delta = true
same_kind _ _ = false

-- `textChunkForStep`, for a chunk of a kind that is known.
unfoldable pub text_chunk : Option TextKind → TextKind → Text → Outcome (TextKind × Text)
text_chunk none kind chunk = ok (kind, chunk)
text_chunk (some current) kind chunk =
    if same_kind current kind then ok (kind, chunk) else thrown (echo mixed_text_error)

abbrev or_summary : Option Text → Text → Text
or_summary none summary = summary
or_summary (some content) summary = content

-- `toolResultContent`; the size is the length of the content.
unfoldable pub tool_result_content : Payload → Option Text
tool_result_content (tool_completed r _) = some (or_summary r.content r.summary)
tool_result_content (tool_failed r _) = some r.summary
tool_result_content (tool_denied r _ _) = some r.summary
tool_result_content (tool_cancelled r _) = some r.summary
tool_result_content _ = none

pub record StepDigest : Type 0 where
  pub index : ℕ
  pub text : Text
  pub text_kind : Option TextKind
  pub tool_calls : List (Text × Value)
  pub tool_results : List Text

abbrev pub no_digest : ℕ → StepDigest
no_digest index = record {
  index = index;
  text = [];
  text_kind = none;
  tool_calls = [];
  tool_results = [];
}

abbrev pub add_chunk : StepDigest → TextKind → Text → Outcome StepDigest
add_chunk d kind chunk = do
  next ← text_chunk d.text_kind kind chunk
  ok (record d { text_kind = some next.0; text = d.text ++ next.1 })

abbrev pub add_result : StepDigest → Option Text → StepDigest
add_result d none = d
add_result d (some content) = record d { tool_results = d.tool_results ++ content ∷ [] }

-- An event within a step.
unfoldable pub digest_event : StepDigest → Payload → Outcome StepDigest
unfolding text_chunk tool_result_content
digest_event d (model_text text _) = add_chunk d aggregated text
digest_event d (model_text_delta text) = add_chunk d delta text
digest_event d (model_tool_call c) =
    ok (record d { tool_calls = d.tool_calls ++ (c.name, c.arguments) ∷ [] })
digest_event d p = ok (add_result d (tool_result_content p))

abbrev pub with_current : Option StepDigest → List StepDigest → List StepDigest
with_current none digests = digests
with_current (some d) digests = digests ++ d ∷ []

abbrev pub started_step : Payload → Option ℕ
started_step (step_started n) = some n
started_step _ = none

abbrev pub digest_within : Option StepDigest → Payload → Outcome (Option StepDigest)
digest_within none p = ok none
digest_within (some d) p = do next ← digest_event d p; ok (some next)

abbrev pub digest_next :
    Option ℕ
    → Payload
    → Option StepDigest
    → List StepDigest
    → Outcome (Option StepDigest × List StepDigest)
digest_next (some n) p current digests = ok (some (no_digest n), with_current current digests)
digest_next none p current digests = do next ← digest_within current p; ok (next, digests)

-- The loop; a throw ends it.
unfoldable pub digests_from :
    List Event → Option StepDigest → List StepDigest → Outcome (List StepDigest)
unfolding digest_event
digests_from [] current digests = ok (with_current current digests)
digests_from (e ∷ es) current digests = do
  next ← digest_next (started_step e.payload) e.payload current digests
  digests_from es next.0 next.1

unfoldable pub collect_step_digests : List Event → Outcome (List StepDigest)
unfolding digests_from
collect_step_digests events = digests_from events none []

abbrev pub summary_max_chars : ℕ
summary_max_chars = 400

unfoldable pub render_summary_line : Text → Text → Text
render_summary_line label value =
    units "- "
    ++ label
    ++ units ": "
    ++ (if leb (length value) summary_max_chars
        then value
        else take summary_max_chars value ++ units "...")

-- `lines.join('\n')`
unfoldable pub join_lines : List Text → Text
join_lines [] = []
join_lines (l ∷ []) = l
join_lines (l ∷ m ∷ ls) = l ++ 10 ∷ join_lines (m ∷ ls)

-- `JSON.stringify` may throw, and undefined has no length.
abbrev printed : Outcome (Option Text) → Outcome Text
printed (ok (some text)) = ok text
printed (ok none) = thrown unknown
printed (thrown e) = thrown e

unfoldable pub argument_text : Value → Outcome Text
argument_text arguments =
    if leb (approx_tokens_for_value arguments) 200
    then printed (stringify arguments)
    else ok (units "[omitted arguments]")

unfoldable pub call_lines : List (Text × Value) → Outcome (List Text)
unfolding argument_text render_summary_line
call_lines [] = ok []
call_lines ((name, arguments) ∷ calls) = do
  text ← argument_text arguments
  lines ← call_lines calls
  ok (render_summary_line (units "tool " ++ name) text ∷ lines)

abbrev pub text_lines : Text → List Text
text_lines text = if is_blank text then [] else render_summary_line (units "assistant") text ∷ []

abbrev pub result_lines : List Text → List Text
result_lines [] = []
result_lines (r ∷ rs) = render_summary_line (units "result") r ∷ result_lines rs

unfoldable pub render_step_digest : StepDigest → Outcome Text
unfolding call_lines join_lines
render_step_digest d = do
  calls ← call_lines d.tool_calls
  ok (
      join_lines (
        (units "Step " ++ decimal d.index ++ units ":") ∷ calls
        ++ text_lines d.text
        ++ result_lines d.tool_results))
