-- ===== src/Prelude/Text.antt =====
-- The string functions that the program uses, over the code points of a text.
use Prim.Native.Nat.{zero, suc, ◌%◌, ◌/◌, ℕ, ◌+◌, ◌-◌, ◌*◌}
use Prim.Native.Char.{code}
use Prim.Native.String
use Prim.Native.String.{String}
use mathlib.Core.Bool.{Bool, true, false, ◌&&◌, ◌||◌}
use mathlib.Core.Option.{Option, none, some}
use mathlib.Core.List.{List, [], ◌∷◌, reverse}
use webtop_manager.Prelude.Tests.{ltb, leb, ◌==◌, if◌then◌else◌}
use webtop_manager.Prelude.Lists.{any, all}

-- The code points of a text.
abbrev pub codes : String → List ℕ
codes String.[] = []
codes (String.◌∷◌ c s) = code c ∷ codes s

-- `char::is_whitespace`: the code points of Unicode's White_Space.
unfoldable pub is_whitespace : ℕ → Bool
is_whitespace c =
    (leb 9 c && leb c 13)
    || (c == 32)
    || (c == 0x85)
    || (c == 0xa0)
    || (c == 0x1680)
    || (leb 0x2000 c && leb c 0x200a)
    || (c == 0x2028)
    || (c == 0x2029)
    || (c == 0x202f)
    || (c == 0x205f)
    || (c == 0x3000)

-- `value.trim().is_empty()`: nothing but white space.
unfoldable pub is_blank : String → Bool
unfolding is_whitespace
is_blank s = all is_whitespace (codes s)

-- `value.chars().any(char::is_whitespace)`.
unfoldable pub has_whitespace : String → Bool
unfolding is_whitespace
has_whitespace s = any is_whitespace (codes s)

unfoldable pub to_ascii_uppercase : ℕ → ℕ
to_ascii_uppercase c = if leb b'a' c && leb c b'z' then c - 32 else c

-- `text.starts_with(pattern)`.
unfoldable pub codes_start_with : List ℕ → List ℕ → Bool
codes_start_with cs [] = true
codes_start_with [] (p ∷ ps) = false
codes_start_with (c ∷ cs) (p ∷ ps) = (c == p) && codes_start_with cs ps

-- `text.contains(pattern)`.
unfoldable pub codes_contain : List ℕ → List ℕ → Bool
unfolding codes_start_with
codes_contain [] ps = codes_start_with [] ps
codes_contain (c ∷ cs) ps = codes_start_with (c ∷ cs) ps || codes_contain cs ps

-- `text.ends_with(pattern)`.
unfoldable pub codes_end_with : List ℕ → List ℕ → Bool
unfolding codes_start_with
codes_end_with cs ps = codes_start_with (reverse cs) (reverse ps)

-- The digits that `str::parse` accepts, with the value read so far; `none` where a code point is
-- no digit or the value passes `limit`.
unfoldable pub parse_digits : ℕ → ℕ → List ℕ → Option ℕ
parse_digits limit n [] = some n
parse_digits limit n (c ∷ cs) =
    let rest = parse_digits limit (n * 10 + (c - 48)) cs in
    if leb 48 c && leb c 57 && leb (n * 10 + (c - 48)) limit then rest else none

-- `str::parse::<uN>()` for the type whose greatest value is `limit`: an optional `+`, then at least
-- one decimal digit.
unfoldable pub parse_unsigned : ℕ → List ℕ → Option ℕ
unfolding parse_digits
parse_unsigned limit [] = none
parse_unsigned limit (c ∷ []) = if c == b'+' then none else parse_digits limit 0 (c ∷ [])
parse_unsigned limit (c ∷ d ∷ cs) =
    if c == b'+' then parse_digits limit 0 (d ∷ cs) else parse_digits limit 0 (c ∷ d ∷ cs)

abbrev digit : ℕ → String
digit d =
    if d == 0
    then "0"
    else if d == 1
    then "1"
    else if d == 2
    then "2"
    else if d == 3
    then "3"
    else if d == 4
    then "4"
    else if d == 5
    then "5"
    else if d == 6
    then "6"
    else if d == 7
    then "7"
    else if d == 8
    then "8"
    else "9"

-- The decimal digits of a number, with fuel for one digit more than it can have.
unfoldable pub decimal_digits : ℕ → ℕ → String → String
decimal_digits zero n acc = acc
decimal_digits (suc fuel) n acc =
    let more = decimal_digits fuel (n / 10) (String.◌++◌ (digit (n % 10)) acc) in
    if ltb n 10 then String.◌++◌ (digit n) acc else more

-- `to_string()` on an unsigned number.
unfoldable pub decimal : ℕ → String
unfolding decimal_digits
decimal n = decimal_digits (suc n) n ""

-- `chars().filter(p)`.
abbrev pub filter_text : (ℕ → Bool) → String → String
filter_text p String.[] = ""
filter_text p (String.◌∷◌ c s) =
    let rest = filter_text p s in if p (code c) then String.◌∷◌ c rest else rest

-- `chars().take(n)`.
abbrev pub take_text : ℕ → String → String
take_text zero s = ""
take_text (suc n) String.[] = ""
take_text (suc n) (String.◌∷◌ c s) = String.◌∷◌ c (take_text n s)

-- `char::is_control`: the code points of Unicode's Cc.
abbrev pub is_control : ℕ → Bool
is_control c = ltb c 32 || (leb 127 c && ltb c 160)

-- `split(c).next()`: the text before the first `c`.
abbrev pub text_before : ℕ → String → String
text_before c String.[] = ""
text_before c (String.◌∷◌ d s) =
    let rest = text_before c s in if code d == c then "" else String.◌∷◌ d rest

-- The text behind the first `c`.
abbrev pub text_after : ℕ → String → Option String
text_after c String.[] = none
text_after c (String.◌∷◌ d s) = let rest = text_after c s in if code d == c then some s else rest

-- `text.starts_with(prefix)`.
abbrev pub text_starts_with : String → String → Bool
text_starts_with text prefix = codes_start_with (codes text) (codes prefix)

-- `rsplit_once(c)`: the texts before and behind the last `c`.
abbrev pub split_last : ℕ → String → Option (String × String)
split_last c String.[] = none
split_last c (String.◌∷◌ d s) = elim (split_last c s) [
  | some (before, after) ↦ some (String.◌∷◌ d before, after)
  | none ↦ if code d == c then some ("", s) else none
]

abbrev trim_front : String → String
trim_front String.[] = ""
trim_front (String.◌∷◌ c s) =
    let rest = trim_front s in if is_whitespace (code c) then rest else String.◌∷◌ c s

abbrev trim_back : String → String
trim_back String.[] = ""
trim_back (String.◌∷◌ c s) =
    let rest = trim_back s in
    if is_whitespace (code c) && is_blank (String.◌∷◌ c s) then "" else String.◌∷◌ c rest

-- `text.trim()`.
unfoldable pub trim : String → String
trim s = trim_back (trim_front s)
