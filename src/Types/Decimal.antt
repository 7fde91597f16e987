-- ===== src/Types/Decimal.antt =====
-- `str(n)` and `int(s)` for Python's integers, over ASCII texts.
pub mod RoundTrip
use dlstorage.Base.{
  ℕ, zero, suc, ◌+◌, ◌-◌, ◌*◌, ◌/◌, ◌%◌, Text, ℤ, pos, negsuc, sub_ℕ, Bool, true, false, Option,
  none, some, [], ◌∷◌, if◌then◌else◌, leb, ltb, ◌==◌, ◌&&◌, ◌||◌, ◌≡◌, refl,
}

-- The digits of `n` before `rest`; one round for each digit, and `n + 1` rounds are always enough.
decimal_from : ℕ → ℕ → Text → Text
decimal_from zero n rest = rest
decimal_from (suc f) n rest =
    let more = decimal_from f (n / 10) ((b'0' + n % 10) ∷ rest) in
    if ltb n 10 then (b'0' + n) ∷ rest else more

unfoldable pub decimal : ℕ → Text
unfolding decimal_from
decimal n = decimal_from (suc n) n []

-- `str(n)`
unfoldable pub str_int : ℤ → Text
unfolding decimal
str_int (pos n) = decimal n
str_int (negsuc n) = b'-' ∷ decimal (n + 1)

pub is_digit : ℕ → Bool
is_digit c = leb b'0' c && leb c b'9'

-- Digits, with single underscores between them.
scan_digits : ℕ → Bool → Text → Option ℕ
scan_digits acc after_digit [] = if after_digit then some acc else none
scan_digits acc after_digit (c ∷ cs) =
    let digit = scan_digits (acc * 10 + (c - b'0')) true cs in
    let underscore = scan_digits acc false cs in
    if is_digit c then digit else if c == b'_' && after_digit then underscore else none

is_space : ℕ → Bool
is_space c = c == 32 || (leb 9 c && leb c 13) || (leb 28 c && leb c 31)

lstrip : Text → Text
lstrip [] = []
lstrip (c ∷ cs) = let rest = lstrip cs in if is_space c then rest else c ∷ cs

rstrip : Text → Text
rstrip [] = []
rstrip (c ∷ cs) = elim (rstrip cs) [
  | [] ↦ if is_space c then [] else c ∷ []
  | (d ∷ ds) ↦ c ∷ d ∷ ds
]

negate : Option ℕ → Option ℤ
negate none = none
negate (some n) = some (sub_ℕ 0 n)

positive : Option ℕ → Option ℤ
positive none = none
positive (some n) = some (pos n)

signed : Text → Option ℤ
signed [] = none
signed (c ∷ cs) =
    if c == b'-'
    then negate (scan_digits 0 false cs)
    else if c == b'+'
    then positive (scan_digits 0 false cs)
    else positive (scan_digits 0 false (c ∷ cs))

-- `int(s)`; `none` stands for the ValueError.
unfoldable pub int_text : Text → Option ℤ
unfolding signed scan_digits is_digit is_space lstrip rstrip negate positive
int_text s = signed (rstrip (lstrip s))
