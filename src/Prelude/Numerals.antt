-- ===== src/Prelude/Numerals.antt =====
-- Numbers as decimal text, as Go's `fmt` and `strconv` write and read them.
pub mod Reading
use Prim.Native.Nat.{ℕ, zero, suc, ◌*◌, ◌-◌, ◌+◌, ◌/◌, ◌%◌}
use Prim.Native.Char.{code}
use Prim.Native.String
use Prim.Native.String.{String}
use policy_decision_service.Prelude.Int.{ℤ, pos, negsuc, opposite}
use policy_decision_service.Prelude.Text.{codes, is_space}
use mathlib.Core.Option.{Option, none, some}
use mathlib.Core.Bool.{true, false, not, Bool, ◌&&◌, ◌||◌}
use mathlib.Core.List.{List, [], ◌∷◌, ◌++◌, map}
use policy_decision_service.Prelude.Tests.{ltb, leb, eqb, if◌then◌else◌}

digit : ℕ → String
digit d =
    if eqb d 0
    then "0"
    else if eqb d 1
    then "1"
    else if eqb d 2
    then "2"
    else if eqb d 3
    then "3"
    else if eqb d 4
    then "4"
    else if eqb d 5
    then "5"
    else if eqb d 6
    then "6"
    else if eqb d 7
    then "7"
    else if eqb d 8
    then "8"
    else "9"

decimal_from : ℕ → ℕ → String
decimal_from zero n = ""
decimal_from (suc fuel) n =
    let front = decimal_from fuel (n / 10) in
    if ltb n 10 then digit n else String.◌++◌ front (digit (n % 10))

-- The verb %d. A number has fewer digits than its successor is large.
unfoldable pub decimal : ℕ → String
unfolding decimal_from digit
decimal n = decimal_from (suc n) n

unfoldable pub decimal_int : ℤ → String
unfolding decimal
decimal_int (pos n) = decimal n
decimal_int (negsuc n) = String.◌++◌ "-" (decimal (suc n))

unfoldable pub is_digit : ℕ → Bool
is_digit c = leb b'0' c && leb c b'9'

-- The value of the digits at the front, after those whose value is `n`.
unfoldable pub scan_digits : ℕ → List ℕ → ℕ
scan_digits n [] = n
scan_digits n (c ∷ cs) =
    let rest = scan_digits (n * 10 + (c - b'0')) cs in if is_digit c then rest else n

unfoldable pub starts_digit : List ℕ → Bool
starts_digit [] = false
starts_digit (c ∷ cs) = is_digit c

unfoldable pub scan_unsigned : Bool → List ℕ → Option ℤ
scan_unsigned negative cs =
    let n = scan_digits 0 cs in
    if not (starts_digit cs)
    then none
    else if negative
    then (if leb n 0x8000000000000000 then some (opposite n) else none)
    else if ltb n 0x8000000000000000
    then some (pos n)
    else none

-- `fmt.Sscanf(s, "%d", &parsed)` into an int64: spaces, a sign, digits; what follows is not read.
unfoldable pub scan_int : List ℕ → Option ℤ
unfolding scan_unsigned scan_digits starts_digit is_digit is_space
scan_int [] = none
scan_int (c ∷ cs) =
    let rest = scan_int cs in
    if is_space c && not (eqb c 10)
    then rest
    else if eqb c b'-'
    then scan_unsigned true cs
    else if eqb c b'+'
    then scan_unsigned false cs
    else scan_unsigned false (c ∷ cs)

unfoldable pub all_digits : List ℕ → Bool
all_digits [] = true
all_digits (c ∷ cs) = is_digit c && all_digits cs

-- An int64 of digits and nothing else.
unfoldable pub read_unsigned : Bool → List ℕ → Option ℤ
read_unsigned negative cs = if all_digits cs then scan_unsigned negative cs else none

-- `strconv.Atoi`: a sign and digits.
unfoldable pub atoi : List ℕ → Option ℤ
unfolding read_unsigned all_digits is_digit scan_unsigned scan_digits starts_digit
atoi [] = none
atoi (c ∷ cs) =
    if eqb c b'-'
    then read_unsigned true cs
    else if eqb c b'+'
    then read_unsigned false cs
    else read_unsigned false (c ∷ cs)
