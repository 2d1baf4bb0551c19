-- ===== src/Context/Tests.antt =====
-- The context window's theorems at concrete inputs.
use canis.Prelude.{ℕ, ◌+◌, ◌≡◌, refl, List, [], ◌∷◌, map, length, Text, codes, text_eq}
use canis.Tools.Json.{Json, str}
use canis.Context.Message.{Message, bare}
use canis.Context.Shares.{share, shares}
use canis.Context.Truncate.{Limits, cut, truncate_tools}
use canis.Context.Fair.{IsDivided, truncate_tools-IsDivided}

abbrev text_of : Json → Text
text_of (str s) = s
text_of other = []

-- A counter that counts characters.
abbrev chars : List Message → ℕ
chars [] = 0
chars (m ∷ ms) = length (text_of m.content) + chars ms

abbrev limits : Limits
limits = record {
  max_output_token_reservation = 5;
  py_str = λ c. codes "null";
  count = chars;
  counted = λ m. m;
}

abbrev conversation : List Message
conversation =
    bare (codes "user") (str (codes "why?"))
    ∷ bare (codes "tool")
        (str (codes "a long answer of a tool, longer than the space that is left"))
    ∷ bare (codes "tool") (str (codes "short"))
    ∷ []

cuts_the_long_one :
    map (λ (m : Message). text_of m.content) (truncate_tools limits conversation 30).0
    ≡ codes "why?" ∷ codes "a long answe\n\n[TRUNCATED]" ∷ codes "short" ∷ []
unfolding truncate_tools shares share cut text_eq
cuts_the_long_one = refl

truncate_tools-IsDivided_example :
    (given : List ℕ) × IsDivided limits conversation 30 given
      (truncate_tools limits conversation 30).0
truncate_tools-IsDivided_example = truncate_tools-IsDivided limits conversation 30
