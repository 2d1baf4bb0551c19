-- ===== src/Prelude/Texts.antt =====
-- Python's `str` as the list of its code points, and the methods that the sources call.
use Prim.Native.Nat.{ℕ}
use Prim.Native.Char.{code}
use Prim.Native.String.{String}
use mathlib.Core.Path.{◌≡◌, refl}
use mathlib.Core.Logic.{◌↔◌}
use mathlib.Core.Bool.{Bool, true, false, ◌&&◌, ◌||◌}
use mathlib.Core.List.{List, [], ◌∷◌, ◌++◌, reverse}
use native.Mathlib.Omega.{arith}
use canis.Prelude.Tests.{◌==◌, leb, if◌then◌else◌}

abbrev pub Text : Type 0
Text = List ℕ

-- A literal of the source, as its code points.
abbrev pub codes : String → Text
codes String.[] = []
codes (String.◌∷◌ c s) = code c ∷ codes s

-- `s == t`
unfoldable pub text_eq : Text → Text → Bool
text_eq [] [] = true
text_eq [] (b ∷ t) = false
text_eq (a ∷ s) [] = false
text_eq (a ∷ s) (b ∷ t) = (a == b) && text_eq s t

pub text_eq_sound : (s t : Text) → text_eq s t ≡ true → s ≡ t
unfolding text_eq
text_eq_sound [] [] h = refl
text_eq_sound [] (b ∷ t) h = cc
text_eq_sound (a ∷ s) [] h = cc
text_eq_sound (a ∷ s) (b ∷ t) h = ground (arith, text_eq_sound s t)

pub text_eq_refl : (s : Text) → text_eq s s ≡ true
unfolding text_eq
text_eq_refl [] = refl
text_eq_refl (a ∷ s) = ground (arith, text_eq_refl s)

pub text_eq_iff : (s t : Text) → (text_eq s t ≡ true) ↔ (s ≡ t)
text_eq_iff s t = (text_eq_sound s t, λ e. ground (arith, text_eq_refl s))

-- `c.isspace()` for one character: the code points that Python's Unicode tables call whitespace.
unfoldable pub is_space : ℕ → Bool
is_space c =
    leb 9 c && leb c 13
    || leb 28 c && leb c 32
    || c == 133
    || c == 160
    || c == 5760
    || leb 8192 c && leb c 8202
    || c == 8232
    || c == 8233
    || c == 8239
    || c == 8287
    || c == 12288

abbrev pub lstrip : Text → Text
lstrip [] = []
lstrip (c ∷ s) = if is_space c then lstrip s else c ∷ s

-- `s.strip()`
unfoldable pub strip : Text → Text
strip s = reverse (lstrip (reverse (lstrip s)))

-- `s.startswith(p)`
unfoldable pub startswith : Text → Text → Bool
startswith s [] = true
startswith [] (b ∷ p) = false
startswith (a ∷ s) (b ∷ p) = (a == b) && startswith s p

-- `p in s`
unfoldable pub contains : Text → Text → Bool
unfolding startswith
contains [] p = startswith [] p
contains (a ∷ s) p = startswith (a ∷ s) p || contains s p

-- `sep.join(parts)`
unfoldable pub join : Text → List Text → Text
join sep [] = []
join sep (s ∷ []) = s
join sep (s ∷ t ∷ rest) = s ++ (sep ++ join sep (t ∷ rest))

-- `s in texts`
abbrev pub elem : Text → List Text → Bool
elem s [] = false
elem s (t ∷ ts) = text_eq s t || elem s ts

startswith_split : (s p : Text) → startswith s p ≡ true → (rest : Text) × (s ≡ p ++ rest)
unfolding startswith
startswith_split s [] h = (s, refl)
startswith_split [] (b ∷ p) h = cc
startswith_split (a ∷ s) (b ∷ p) h =
    let (rest, e) = startswith_split s p (ground arith) in (rest, ground (arith, e))

pub startswith-append : (p rest : Text) → startswith (p ++ rest) p ≡ true
unfolding startswith
startswith-append [] rest = refl
startswith-append (b ∷ p) rest = ground (arith, startswith-append p rest)

-- `startswith` finds exactly the texts that begin with `p`.
pub startswith_iff : (s p : Text) → (startswith s p ≡ true) ↔ ((rest : Text) × (s ≡ p ++ rest))
startswith_iff s p = (startswith_split s p, λ (rest, e). rw e (startswith-append p rest))
