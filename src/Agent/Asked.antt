-- ===== src/Agent/Asked.antt =====
-- How often `call` asks the model (holmes/core/tool_calling_llm.py).
use canis.Context.Message.{Message}
