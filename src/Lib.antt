-- ===== src/Lib.antt =====
-- A model of ECHO Coding Harness, an agent that lets a language model work on a code base through
-- tools, under a safety policy and with a log of every event.
--
-- The parts and their files, with the code they model:
--
-- Common: lists, texts (sequences of UTF-16 code units), sets and maps keyed by texts, Boolean tests.
-- Contracts: the shared types. Contracts/Value: values of type unknown. Contracts/Json: JSON.stringify.
--   Contracts/Error, Contracts/Event: src/contracts/errors.ts, events.ts, agent.ts, model.ts, tools.ts.
-- Tools: src/tools/tool-registry.ts. Tools/Normalize: normalizeToolInput and toolCallSignature, with
--   Normalize/Order for the order of keys and Normalize/Bounds for size and depth;
--   Tools/Registry: the class ToolRegistry, a map of tools and the names that extensions own.
-- Tools/Files: src/tools/files, over a file system that is the record FileSystem, whose calls may change
--   the world. Files/Segments and Files/Resolve: path-safety.ts. Files/Text: text.ts. Files/Output:
--   output.ts. Files/Errors: errors.ts. Files/Validation: validation.ts. Files/Diff: diff.ts. Files/Edits
--   and Edits/Parse: the edits of apply-patch.ts. Files/Writing: write-core.ts. Files/Tools: the tools
--   apply_patch, write_file and read_file.
-- Session/Redaction: redactValue of src/session/redaction.ts on every payload.
-- Session/Compensation: compensateIncomplete of src/session/jsonl-session-repository.ts and
--   incompleteTurnIds of src/session/session-query.ts.
-- Session/Query: src/session/session-query.ts, the turns of a log. Query/Runtime: the state, the summary
--   and the view of a session. Query/Recoverable: assertRecoverableEvents. Query/Grouping: the turns
--   against their description. Query/Resumed: a session whose log was completed.
-- Security: src/security/central-safety-policy.ts. Security/Patterns: its regular expressions, terms of
--   the matcher Common/Regex. Security/Paths: declared paths and the paths of a command, with Platform,
--   what the policy takes from its platform. Security/Commands: classifyCommand. Security/Policy:
--   CentralSafetyPolicy; its children compare the modes, the approvals, and say what is contained.
-- Provider/Reasoning: aggregateReasoning of src/provider/reasoning.ts.
-- Provider/Streaming: collectStreamedToolCalls of src/provider/stream-aggregation.ts.
-- Context: src/context. Context/Trim: approx-tokens.ts and trim.ts. The others: event-context-builder.ts,
--   with Context/Digests: collectStepDigests, renderStepDigest; Context/Conversation: collectConversation
--   and the variables of its loop; Context/Messages: conversationMessages and the measure of messages;
--   Context/Build: the class EventContextBuilder, its loop over the turns by structural recursion.
-- Application/Coordinator: src/application/active-turn-coordinator.ts, as steps between awaits;
--   Coordinator/Links and Coordinator/Alone: its invariant.
-- Web/Idempotency: createIdempotencyStore of src/web/idempotency.ts.
-- Web/Hub: createSessionEventHub of src/web/sse-hub.ts, each call a step and the loop of handover in
--   rounds; Hub/Views: the buckets, leases and calls as equations; Hub/Alike and Hub/Single: the
--   invariant; Hub/Channel, Hub/Delivery, Hub/Handover and Hub/Refine: a lease as a channel of events.
-- Cli/Input: the class ChatInputDecoder of src/cli/chat-input-decoder.ts, its loop in rounds.
-- Web/Projection: src/web/session-projection.ts, with the redaction as a parameter. Projection/Turn: the
--   turn and the session that the browser shows. Projection/History: historyGap. Projection/Pending: the
--   approval that is waited for.
-- Execution/Buffer: the class BoundedTextBuffer of src/execution/bounded-text-buffer.ts.
-- Agent: src/agent/agent-loop.ts, the class AgentLoop. Agent/Interface: TurnState as the record State,
--   AgentLoopOptions as Options, and Env, what the loop calls: provider, policy, approval handler,
--   tools, session store, observer, clocks, id factory and abort signal, each a function on a state of
--   the world that it may change, so that the signal may be raised and the store may fail at any call.
--   Agent/Action: the monad of the methods, state and exceptions, where a throw keeps the state.
--   Agent/Calls: the functions before the class. Agent/Emit: createEvent, emit, finish... Agent/Dispatch:
--   dispatchTool, one definition for each stage. Agent/Response and Agent/Steps: runSteps.
--   Agent/Recovery: repairStorageFailure. Agent/Turn: run, continueSession, createState,
--   handleTurnException. Agent/Demo: a small world in which the loop runs.
--   Agent/Ensures: triples for the methods. Agent/Protocol: the order of the events of a session, as
--   an automaton, and what it implies. Agent/Keeps: properties of the log that every method keeps.
--   Agent/Denial: dispatchTool under a policy that denies. Agent/Repaired: the log that
--   repairStorageFailure leaves where its store works.
--
-- The loop runs runSteps by the number of rounds that are left, which starts at maxSteps, as the loop
-- of the code does. The loop of limitRecordsHeadTail runs by the number of its records, and the search
-- for the matches of an edit by the length of the text, and the loop of the chat decoder by the length
-- of its buffer, which are enough. Values are trees, so that the guards against cycles are
-- left out; a finite number is kept by its JSON text. Numbers are natural; the counters are taken to stay
-- below the bound of safe integers. A stream is the list of its events and the way it ends.
--
-- Not modelled: redactText, which is made of regular expressions, is a parameter; the key __proto__
-- and the order of keys that are array indices, which JavaScript treats apart. The requests of the
-- provider client, the session files, the processes of commands, the tools that list and search files,
-- the extensions, the routes of the web server, the web client, the commands and the rendering of the
-- terminal interface, and the configuration are not modelled.
pub mod Agent
pub mod Application
pub mod Cli
pub mod Common
pub mod Context
pub mod Contracts
pub mod Execution
pub mod Provider
pub mod Security
pub mod Session
pub mod Tools
pub mod Web
