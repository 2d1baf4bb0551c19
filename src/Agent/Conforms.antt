-- ===== src/Agent/Conforms.antt =====
-- Every stream of `call_stream` keeps to the order of events (holmes/core/tool_calling_llm.py).
use canis.Prelude.{
  ℕ, zero, suc, Bool, true, false, ◌&&◌, refl, inl, inr, Option, none, some, List, [], ◌∷◌, ◌++◌,
  map, if◌then◌else◌, Bool-cases, Text,
}
use canis.Context.Message.{Message, count_tokens}
use canis.Context.Llm.{Reply}
use canis.Context.Limit.{Event, Outcome-cases, limit_input_context_window}
use canis.Agent.Size.{ToolCallResult}
use canis.Agent.Invoke.{Executor, AgentState}
use canis.Agent.Loop.{Surroundings, is_one}
use canis.Agent.Steps.{requested-cases}
use canis.Agent.Decisions.{Entry}
use canis.Agent.Stream.{
  StreamEvent, limiter_event, token_count, Streamed, StreamState, RoundEnd, after, entry_message,
  entry_of_reply, attached,
}
use canis.Agent.StreamDenied.{RoundEnd-cases}
use canis.Agent.StreamLoop.{
  use_calls, ai_messages, some_text, stream_reply, stream_model, stream_limited, stream_round,
  plain_stream, formatted_stream, stream,
}
use canis.Agent.Protocol.{
  running, finished, Arrived, Step, Follows, RoundPhase-after, EndPhase, EndPhase-after, RoundOk,
  use_calls-RoundOk,
}

notes_phase :
    (P : Type 0) (es : List Event)
    → Follows {P = P} (running []) (map limiter_event es) (running [])
unfolding Follows Step
notes_phase P [] = refl
notes_phase P (e ∷ es) = (running [], refl, notes_phase P es)

module _ {P T S : Type 0} (x : Executor P S) (c : Surroundings P T S)
    (dumps : List Text → Text → Text → Text) (saved : Message → List Text)
    (reasoning : Reply → Option Text) where
  after-RoundOk :
      (es : List (StreamEvent P)) (r : Streamed P S (RoundEnd P T))
      → Follows (running []) es (running [])
      → RoundOk x c dumps saved reasoning r
      → RoundOk x c dumps saved reasoning (after es r)
  after-RoundOk es r h ok = RoundPhase-after r.outcome es r.events h ok

  ai_messages_phase :
      (reply : Reply)
      → Follows (running []) (ai_messages x c dumps saved reasoning reply) (running [])
  unfolding Follows Step
  ai_messages_phase reply =
      elim (Bool-cases (some_text x c dumps saved reasoning (reasoning reply))) [
        | inl e ↦ rw e (running [], refl, refl)
        | inr e ↦ elim (Bool-cases (some_text x c dumps saved reasoning reply.text)) [
          | inl f ↦ rw e (rw f (running [], refl, refl))
          | inr f ↦ rw e (rw f refl)
        ]
      ]

  -- How a stream ends fits its events.
  abbrev pub Conforms : Streamed P S (Unit {0}) → Type 0
  Conforms r = EndPhase r.outcome r.events

  after-Conforms :
      (es : List (StreamEvent P)) (r : Streamed P S (Unit {0}))
      → Follows (running []) es (running [])
      → Conforms r
      → Conforms (after es r)
  after-Conforms es r h ok = EndPhase-after r.outcome es r.events h ok

-- The results of calls come in some order, one for each.
module _ {P T S : Type 0} (x : Executor P S) (c : Surroundings P T S)
    (dumps : List Text → Text → Text → Text) (saved : Message → List Text)
    (reasoning : Reply → Option Text)
    (arrives : (rs : List (ToolCallResult P)) → Arrived (c.arrive rs) rs) where
  stream_reply-RoundOk :
      (enable : Bool) (reply : Reply) (s : StreamState P T) (a : AgentState S)
      → RoundOk x c dumps saved reasoning (stream_reply x c dumps saved reasoning enable reply s a)
  unfolding stream_reply Follows Step
  stream_reply-RoundOk enable reply s a =
      let messages = s.messages ++ entry_of_reply reply ∷ [] in
      let (tokens, marked) = count_tokens c.llm.counter (map entry_message messages) s.tools in
      elim (requested-cases reply.requested) [
        | inl e ↦ rw (stream_reply, e) (running [], refl, (finished, refl, refl))
        | inr (t, ts, e) ↦
            rw (stream_reply, e)
              (after-RoundOk x c dumps saved reasoning
                (token_count tokens ∷ ai_messages x c dumps saved reasoning reply)
                (use_calls x c dumps saved reasoning enable (t ∷ ts)
                  (record s { messages = attached marked messages }) a)
                (running [], refl, ai_messages_phase x c dumps saved reasoning reply)
                (use_calls-RoundOk x c dumps saved reasoning arrives enable (t ∷ ts)
                  (record s { messages = attached marked messages }) a))
      ]

  stream_model-RoundOk :
      (formatted enable : Bool) (s : StreamState P T) (a : AgentState S)
      → RoundOk x c dumps saved reasoning
          (stream_model x c dumps saved reasoning formatted enable s a)
  unfolding stream_model Follows Step
  stream_model-RoundOk formatted enable s a =
      let (o, w) = c.respond formatted (map entry_message s.messages) s.tools a.world in
      elim (Outcome-cases o) [
        | inl (e, f) ↦ rw (stream_model, f) ([], refl)
        | inr (reply, f) ↦ elim (Bool-cases (formatted && c.is_incorrect_tool_call reply)) [
          | inl g ↦ rw (stream_model, f) (rw g refl)
          | inr g ↦
              rw (stream_model, f)
                (rw g (stream_reply-RoundOk enable reply s (record a { world = w })))
        ]
      ]

  stream_round-RoundOk :
      (formatted enable is_last : Bool) (s : StreamState P T) (a : AgentState S)
      → RoundOk x c dumps saved reasoning
          (stream_round x c dumps saved reasoning formatted enable is_last s a)
  unfolding stream_round Follows Step
  stream_round-RoundOk formatted enable is_last s a =
      let tools = if is_last then none else s.tools in
      let (o, w) =
        limit_input_context_window c.llm c.settings (map entry_message s.messages) tools a.world in
      elim (Outcome-cases o) [
        | inl (e, f) ↦ rw (stream_round, f) ([], refl)
        | inr (out, f) ↦
            let s' = stream_limited x c dumps saved reasoning (record s { tools = tools }) out in
            rw (stream_round, f)
              (after-RoundOk x c dumps saved reasoning (map limiter_event out.events)
                (stream_model x c dumps saved reasoning formatted enable s'
                  (record a { world = w }))
                (notes_phase P out.events)
                (stream_model-RoundOk formatted enable s' (record a { world = w })))
      ]

  plain_stream-Conforms :
      (enable : Bool) (left : ℕ) (s : StreamState P T) (a : AgentState S)
      → Conforms x c dumps saved reasoning (plain_stream x c dumps saved reasoning enable left s a)
  unfolding plain_stream Follows Step
  plain_stream-Conforms enable zero s a = ([], refl)
  plain_stream-Conforms enable (suc left) s a =
      let r = stream_round x c dumps saved reasoning false enable (is_one x c (suc left)) s a in
      let ok = stream_round-RoundOk false enable (is_one x c (suc left)) s a in
      elim (RoundEnd-cases r.outcome) [
        | inl (e, f) ↦ rw (plain_stream, f) (rw f at ok)
        | inr (inl f) ↦ rw (plain_stream, f) (rw f at ok)
        | inr (inr (inl (s', f))) ↦
            rw (plain_stream, f)
              (after-Conforms x c dumps saved reasoning r.events
                (plain_stream x c dumps saved reasoning enable left s' r.state) (rw f at ok)
                (plain_stream-Conforms enable left s' r.state))
        | inr (inr (inr (s', f))) ↦
            rw (plain_stream, f)
              (after-Conforms x c dumps saved reasoning r.events
                (plain_stream x c dumps saved reasoning enable left s' r.state) (rw f at ok)
                (plain_stream-Conforms enable left s' r.state))
      ]

  formatted_stream-Conforms :
      (enable : Bool) (left : ℕ) (s : StreamState P T) (a : AgentState S)
      → Conforms x c dumps saved reasoning
          (formatted_stream x c dumps saved reasoning enable left s a)
  unfolding formatted_stream Follows Step
  formatted_stream-Conforms enable zero s a = ([], refl)
  formatted_stream-Conforms enable (suc left) s a =
      let r = stream_round x c dumps saved reasoning true enable (is_one x c (suc left)) s a in
      let ok = stream_round-RoundOk true enable (is_one x c (suc left)) s a in
      elim (RoundEnd-cases r.outcome) [
        | inl (e, f) ↦ rw (formatted_stream, f) (rw f at ok)
        | inr (inl f) ↦ rw (formatted_stream, f) (rw f at ok)
        | inr (inr (inl (s', f))) ↦
            rw (formatted_stream, f)
              (after-Conforms x c dumps saved reasoning r.events
                (plain_stream x c dumps saved reasoning enable (suc left) s' r.state) (rw f at ok)
                (plain_stream-Conforms enable (suc left) s' r.state))
        | inr (inr (inr (s', f))) ↦
            rw (formatted_stream, f)
              (after-Conforms x c dumps saved reasoning r.events
                (formatted_stream x c dumps saved reasoning enable left s' r.state) (rw f at ok)
                (formatted_stream-Conforms enable left s' r.state))
      ]

  -- If the completed results are those of the started calls in some order, then the events of a
  -- stream after the decisions keep to the order of the step relation: each started call gets its
  -- result, in whatever order the calls complete, before anything else happens. A stream that
  -- returns has ended with one event of its end, an answer or required approvals; one that raises
  -- has none.
  pub stream-Conforms :
      (formatted enable_tool_approval : Bool) (max_steps : ℕ) (messages : List Entry)
      (a : AgentState S)
      → Conforms x c dumps saved reasoning
          (stream x c dumps saved reasoning formatted enable_tool_approval max_steps messages a)
  unfolding stream
  stream-Conforms formatted enable max_steps messages a =
      let s : StreamState P T = record {
        messages = messages;
        past = [];
        tools = some (c.get_tools a.runbook_in_use);
      } in
      elim (Bool-cases formatted) [
        | inl e ↦ rw e (formatted_stream-Conforms enable max_steps s a)
        | inr e ↦ rw e (plain_stream-Conforms enable max_steps s a)
      ]
