-- ===== src/Context/Llm.antt =====
-- The language model as the sources call it (`LLM` of holmes/core/llm.py): litellm answers.
use canis.Prelude.{ℕ, Option, List, Text}
use canis.Tools.Result.{Outcome}
use canis.Context.Message.{Message, Counter}

-- A tool call that the model asks for; a custom tool call has no function name and arguments.
pub record ToolCall : Type 0 where
  pub id : Text
  pub function : Option (Text × Text)

-- `choices[0].message`: its `model_dump`, its tool calls and its content.
pub record Reply : Type 0 where
  pub message : Message
  pub requested : List ToolCall
  pub text : Option Text

-- Over tools `T` and a state `W` of the world. A response may have no first choice.
pub record Llm (T W : Type 0) : Type 0 where
  pub counter : Counter T
  pub context_window_size : ℕ
  pub maximum_output_token : ℕ
  pub completion : List Message → Option T → W → Outcome (Option Reply) × W
