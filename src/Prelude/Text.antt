-- ===== src/Prelude/Text.antt =====
-- What the program uses of Go's `strings` package. A Go string that holds valid UTF-8 is a
-- `String`; where the code walks bytes it is the list of its bytes.
use Prim.Native.Nat.{ℕ, ◌+◌, ◌/◌, ◌%◌}
use Prim.Native.Char.{code}
use Prim.Native.String
use Prim.Native.String.{String}
use mathlib.Core.Bool.{Bool, ◌&&◌, ◌||◌}
use mathlib.Core.List.{List, [], ◌∷◌, ◌++◌, map}
use text.Mathlib.Text.{◌==◌}
use policy_decision_service.Prelude.Tests.{ltb, leb, eqb, if◌then◌else◌}

-- The runes of a text.
abbrev pub codes : String → List ℕ
codes (String.◌∷◌ rune rest) = code rune ∷ codes rest
codes String.[] = []

-- unicode.IsSpace
unfoldable pub is_space : ℕ → Bool
is_space c =
    (leb 9 c && leb c 13)
    || eqb c 32
    || eqb c 0x85
    || eqb c 0xa0
    || eqb c 0x1680
    || (leb 0x2000 c && leb c 0x200a)
    || eqb c 0x2028
    || eqb c 0x2029
    || eqb c 0x202f
    || eqb c 0x205f
    || eqb c 0x3000

unfoldable pub trim_left : String → String
unfolding is_space
trim_left String.[] = ""
trim_left (String.◌∷◌ c s) = if is_space (code c) then trim_left s else String.◌∷◌ c s

unfoldable pub trim_right : String → String
unfolding is_space
trim_right String.[] = ""
trim_right (String.◌∷◌ c s) =
    let rest = trim_right s in if is_space (code c) && rest == "" then "" else String.◌∷◌ c rest

-- strings.TrimSpace
unfoldable pub trim_space : String → String
unfolding trim_left trim_right
trim_space s = trim_right (trim_left s)

-- `unicode.ToLower` of a rune; the Unicode table for runes past ASCII is `wide`.
unfoldable pub lower_rune : (ℕ → ℕ) → ℕ → ℕ
lower_rune wide c = if ltb c 128 then (if leb 65 c && leb c 90 then c + 32 else c) else wide c

-- strings.ToLower
unfoldable pub to_lower : (ℕ → ℕ) → List ℕ → List ℕ
unfolding lower_rune
to_lower wide = map (lower_rune wide)

-- The bytes of a rune in UTF-8.
unfoldable pub utf8_rune : ℕ → List ℕ
utf8_rune c =
    if ltb c 0x80
    then c ∷ []
    else if ltb c 0x800
    then (0xc0 + c / 64) ∷ (0x80 + c % 64) ∷ []
    else if ltb c 0x10000
    then (0xe0 + c / 4096) ∷ (0x80 + c / 64 % 64) ∷ (0x80 + c % 64) ∷ []
    else (0xf0 + c / 262144) ∷ (0x80 + c / 4096 % 64) ∷ (0x80 + c / 64 % 64) ∷ (0x80 + c % 64) ∷ []

unfoldable pub utf8 : List ℕ → List ℕ
unfolding utf8_rune
utf8 [] = []
utf8 (c ∷ cs) = utf8_rune c ++ utf8 cs

-- strings.Join
unfoldable pub join : String → List String → String
join sep [] = ""
join sep (s ∷ []) = s
join sep (s ∷ t ∷ rest) = String.◌++◌ s (String.◌++◌ sep (join sep (t ∷ rest)))

-- The pieces of `strings.Split(s, sep)`, for a separator of one rune.
abbrev pub put_front : String → List String → List String
put_front c [] = c ∷ []
put_front c (piece ∷ pieces) = String.◌++◌ c piece ∷ pieces

unfoldable pub split : ℕ → String → List String
split sep String.[] = "" ∷ []
split sep (String.◌∷◌ c s) =
    let rest = split sep s in
    if eqb (code c) sep then "" ∷ rest else put_front (String.◌∷◌ c String.[]) rest

-- The loops that trim each of a list of texts and drop the empty ones.
unfoldable pub keep_trimmed : List String → List String
keep_trimmed [] = []
keep_trimmed (piece ∷ pieces) =
    let rest = keep_trimmed pieces in
    let text = trim_space piece in if text == "" then rest else text ∷ rest
