-- ===== src/Toolsets/Owners.antt =====
-- Which toolset a tool of the executor belongs to (holmes/core/tools_utils/tool_executor.py).
use canis.Prelude.{◌≡◌, some, List, [], ◌∷◌, Text, Dict, dict_get, All, Any}
use canis.Tools.Invoke.{Tool}
use canis.Toolsets.Logging.{Toolset}
use canis.Toolsets.Executor.{Contents, ToolExecutor, with_icon}

abbrev pub IsMember : {A : Type 0} → A → List A → Type 0
IsMember x xs = Any (λ y. y ≡ x) xs

module _ {P S W : Type 0} (kept : List (Toolset (Contents P S W))) where
  -- The tool of a name is a tool of that name of the toolset, up to its icon.
  abbrev pub Owns : Toolset (Contents P S W) → Text → Tool P S → Type 0
  Owns ts name tool =
      IsMember ts kept
      × ((own : Tool P S) × IsMember own ts.rest.tools
          × (own.name ≡ name)
          × (tool ≡ with_icon ts.rest.icon_url own))

  abbrev pub IsConsistent : ToolExecutor P S W → Type 0
  IsConsistent e =
      (name : Text) (tool : Tool P S)
      → dict_get name e.tools_by_name ≡ some tool
      → (ts : Toolset (Contents P S W)) × (dict_get name e.tool_to_toolset ≡ some ts)
        × Owns ts name tool

  abbrev AllKept : Dict (Toolset (Contents P S W)) → Type 0
  AllKept [] = Unit {0}
  AllKept ((k, ts) ∷ d) = IsMember ts kept × AllKept d

module _ {P S W : Type 0} where
  abbrev pub IsRegistered : ToolExecutor P S W → Tool P S → Type 0
  IsRegistered e own = (tool : Tool P S) × (dict_get own.name e.tools_by_name ≡ some tool)

  -- Every tool of every toolset of the dict is registered.
  abbrev pub IsComplete : Dict (Toolset (Contents P S W)) → ToolExecutor P S W → Type 0
  IsComplete [] e = Unit {0}
  IsComplete ((k, ts) ∷ d) e = All (IsRegistered e) ts.rest.tools × IsComplete d e
