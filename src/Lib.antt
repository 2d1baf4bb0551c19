-- ===== src/Lib.antt =====
-- HolmesGPT (canis) is an agent that lets a language model investigate incidents through tools.
-- This library models the core that decides what runs and what the model is shown.
--
-- Prelude: numbers, lists, and Python's `str` as a list of code points (`Text`), with `strip`,
-- `startswith`, `in`, `join` and `sorted(set(...))`.
--
-- Tools (holmes/core/tools.py): `StructuredToolResult`, and `Tool.invoke` with its approval checks
-- and transformers. A tool is a record of functions over its own type of arguments and a state;
-- each function returns the state with its result. An exception is `raised` with its text.
--
-- Bash (holmes/plugins/toolsets/bash): Match and Segment are the prefix rules of validation.py,
-- Lists its lists, Command `validate_command`, and Tool the class `RunBashCommand` as a `Tool`.
-- The parser bashlex is a parameter that gives the visitor's callbacks; Unicode's tables, `repr`,
-- the file of approved prefixes and the subprocess are parameters too. The arguments have their
-- declared types.
--
-- Context (holmes/core/truncation, holmes/core/llm.py): Message is `count_tokens`, Shares the
-- division of the space, and Truncate `truncate_messages_to_fit_context`, where a tool message is a
-- place in the list of messages, since the lists of the source share their dicts; Budget and Fair
-- say what its loop gives to each message. litellm's token counter is a parameter, with no
-- assumption on it. Compaction and Limit are `compact_conversation_history` and
-- `limit_input_context_window`; Llm is the model as they call it, which may answer, give no choice
-- or raise, and acts on a state of the world.
--
-- Agent (holmes/core/tool_calling_llm.py, holmes/core/safeguards.py and holmes/core/tools_utils):
-- Safeguards refuses repeated calls, Size limits large results, and Invoke is one tool call from
-- the model's request to its result, `_invoke_llm_tool_call` and then `_handle_tool_call_approval`.
-- Approval and Answers are the theorems on it. Loop is `call` with its rounds, Steps counts them,
-- Asked counts the calls of the model, and Denied follows a user who denies through all of them.
-- The fields of `Surroundings` are what `call` takes from the model, the tags and the structured
-- output. The tools by name and the initialization of toolsets (see Toolsets below), `json.loads`
-- and the callback that asks the user are fields of `Executor`. The tool calls of one round, which
-- the source runs in threads, are invoked in order; in which order they complete, and are then
-- approved and answered, is a field of `Surroundings`. Costs, metadata and logs are left out.
-- Decisions is `process_tool_decisions`, the answers of the user to the waiting calls of a
-- conversation; Decided compares it with a reference and Undecided is about decisions that do not
-- approve. Stream and StreamLoop are `call_stream`: a generator is the list of its events with the
-- way that it ends, and the results of a round come in the order in which the calls complete.
-- StreamDenied follows the undecided calls through it, Protocol is a step relation of the events,
-- which Conforms follows, and Marks and Resume lead from a stream that stops for approvals to the
-- next one.
--
-- Toolsets: Prerequisites are the checks of `Toolset` (holmes/core/tools.py), at once or deferred to
-- the first use, and Lazy compares the two. Executor is `ToolExecutor`
-- (holmes/core/tools_utils/tool_executor.py); Owners and Ready are the theorems on it, and Ready makes
-- it the `Executor` of the agent. Logging is the choice of the one logging toolset,
-- `filter_out_default_logging_toolset` (holmes/core/tools_utils/toolset_utils.py). The environment,
-- subprocesses and the callables of prerequisites are parameters, and act on a state of the world.
-- Manager and StatusCache are `ToolsetManager` (holmes/core/toolset_manager.py): the listing, in which
-- later sources override earlier ones, and the refresh of the statuses and the start from their cache.
-- The file of the cache is the list of what it holds, and toolsets are checked in order. Listing and Distinct are about
-- the names of a listing, Restored and Starts about a start from the cache.
--
-- Logs (holmes/plugins/toolsets/kubernetes_logs.py): Lines parses the output of kubectl, Printed
-- parses what it printed, Filter is `filter_logs`, whose order Order and what it keeps Filtered is
-- about, and Fetch is
-- `fetch_pod_logs` over two runs of kubectl, a parameter as are the regular expressions and the times
-- of texts. A limit is not negative, and the metadata text is a parameter.
--
-- JsonFilter (holmes/plugins/toolsets/json_filter_mixin.py): the filter of JSON results by jq, a
-- parameter, and by depth; Depth and Bounds are the theorems on it.
--
-- Checks (holmes/checks): Run executes a health check by the agent and collects the alerts, which go to
-- Slack and PagerDuty; Config merges the defaults, and Alerts says which alerts there are. The prompt
-- and the reading of the JSON answer are parameters, and checks run in order.
--
-- Scheduled (holmes/core/scheduled_prompts): Executor is the loop that claims runs of prompts, asks the
-- agent and reports how they ended; Runs is about its calls of the database, which is a parameter, as
-- are the chat and the models. The loop runs for a number of turns.
--
-- Cache (holmes/utils/cache.py): Ttl is `TTLCache` with the turn of its timer as an operation, Refines
-- compares it with a map, and Expired is about its keys. zlib and JSON are parameters.
--
-- Operator (holmes_operator): Schedule is `SchedulerManager` and the handlers of scheduled health
-- checks, over a scheduler that is a parameter, Matches says when its jobs are those of a cluster, Events
-- runs the handlers, Startup loads the existing schedules and Restart runs both. Status is the
-- update of a status with retries on conflicts
-- (scheduler/job_executor.py), over a client of the Kubernetes API during whose calls other clients may
-- write; Atomic and History are the theorems on it. Watch is `watch_healthcheck_completion`; its fuel is
-- one turn for each five seconds of the time that it may wait and two more, and Termination shows
-- that this is enough when the clock is not set back. Times are in 160ths of a second, in which all
-- intervals are whole numbers.
--
-- The other loops are recursions on lists, or on the steps that are left, without fuel: a retry
-- without structured output goes on in a loop of its own, which cannot retry. Not modelled: HTTP,
-- the file system and subprocesses behind the toolsets, logging, tracing, prompts and the user
-- interfaces.
pub mod Prelude
pub mod Tools
pub mod Bash
pub mod Context
pub mod Agent
pub mod Toolsets
pub mod Logs
pub mod Operator
pub mod JsonFilter
pub mod Checks
pub mod Scheduled
pub mod Cache
