-- ===== src/Tools/Json.antt =====
-- The values that a tool returns as data: what `json.loads` makes of a document.
use canis.Prelude.{Bool, Text}

mutual
  -- A number is kept as its spelling.
  pub data Json : Type 0 where
    null : Json
    boolean : Bool → Json
    number : Text → Json
    str : Text → Json
    arr : Items → Json
    obj : Members → Json

  pub data Items : Type 0 where
    nil : Items
    cons : Json → Items → Items

  pub data Members : Type 0 where
    end : Members
    member : Text → Json → Members → Members
