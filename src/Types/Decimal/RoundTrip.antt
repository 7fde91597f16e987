-- ===== src/Types/Decimal/RoundTrip.antt =====
-- `int(str(n))` is `n`, and a printed integer holds nothing but digits and a minus sign.
use dlstorage.Base.{
  ℕ, zero, suc, ◌+◌, ◌*◌, ◌/◌, ◌%◌, ◌<◌, Text, ℤ, pos, negsuc, Bool, true, false, some, [], ◌∷◌,
  ltb, ◌==◌, ◌≡◌, refl, arith, Bool-cases, inl, inr, ap, ◌∙◌,
}
use dlstorage.Types.Decimal.{
  decimal_from, decimal, str_int, is_digit, scan_digits, is_space, lstrip, rstrip, negate, positive,
  signed, int_text,
}

abbrev pub AllDigits : Text → Type 0
AllDigits [] = Unit
AllDigits (c ∷ cs) = (is_digit c ≡ true) × AllDigits cs

is_digit-add : (d : ℕ) → d < 10 → is_digit (b'0' + d) ≡ true
unfolding is_digit
is_digit-add d h = ground arith

decimal_from-AllDigits :
    (f n : ℕ) (rest : Text) → AllDigits rest → AllDigits (decimal_from f n rest)
unfolding decimal_from
decimal_from-AllDigits zero n rest h = h
decimal_from-AllDigits (suc f) n rest h = elim (Bool-cases (ltb n 10)) [
  | inl last ↦ rw last (is_digit-add n (ground arith), h)
  | inr more ↦ rw more (
      decimal_from-AllDigits f (n / 10) ((b'0' + n % 10) ∷ rest)
        (is_digit-add (n % 10) (omega arith), h))
]

pub decimal-AllDigits : (n : ℕ) → AllDigits (decimal n)
unfolding decimal
decimal-AllDigits n = decimal_from-AllDigits (suc n) n [] tt

scan-digit :
    (acc d : ℕ) (b : Bool) (rest : Text)
    → d < 10
    → scan_digits acc b ((b'0' + d) ∷ rest) ≡ scan_digits (acc * 10 + d) true rest
unfolding scan_digits
scan-digit acc d b rest h =
    rw (is_digit-add d h) (ap (λ (n : ℕ). scan_digits (acc * 10 + n) true rest) (omega arith))

scan-decimal_from :
    (f n : ℕ) (b : Bool) (rest : Text)
    → n < f
    → scan_digits 0 b (decimal_from f n rest) ≡ scan_digits n true rest
unfolding decimal_from
scan-decimal_from zero n b rest h = absurd (omega arith)
scan-decimal_from (suc f) n b rest h = elim (Bool-cases (ltb n 10)) [
  | inl last ↦
      rw last (
        scan-digit 0 n b rest (ground arith)
        ∙ ap (λ (m : ℕ). scan_digits m true rest) (omega arith))
  | inr more ↦ rw more (
      scan-decimal_from f (n / 10) b ((b'0' + n % 10) ∷ rest) (ground arith)
      ∙ scan-digit (n / 10) (n % 10) true rest (omega arith)
      ∙ ap (λ (m : ℕ). scan_digits m true rest) (omega arith))
]

scan-decimal : (n : ℕ) → scan_digits 0 false (decimal n) ≡ some n
unfolding decimal
scan-decimal n = scan-decimal_from (suc n) n false [] (omega arith) ∙ unfold scan_digits in refl

-- What `strip` leaves alone.
abbrev NoSpace : Text → Type 0
NoSpace [] = Unit
NoSpace (c ∷ cs) = (is_space c ≡ false) × NoSpace cs

digit_no_space : (c : ℕ) → is_digit c ≡ true → is_space c ≡ false
unfolding is_digit is_space
digit_no_space c h = ground arith

AllDigits-NoSpace : (t : Text) → AllDigits t → NoSpace t
AllDigits-NoSpace [] h = tt
AllDigits-NoSpace (c ∷ cs) h = (digit_no_space c h.0, AllDigits-NoSpace cs h.1)

lstrip_lem : (t : Text) → NoSpace t → lstrip t ≡ t
unfolding lstrip
lstrip_lem [] h = refl
lstrip_lem (c ∷ cs) h = rw h.0

rstrip_lem : (t : Text) → NoSpace t → rstrip t ≡ t
unfolding rstrip
rstrip_lem [] h = refl
rstrip_lem (c ∷ []) h = rw h.0
rstrip_lem (c ∷ d ∷ cs) h = rw (rstrip_lem (d ∷ cs) h.1)

strip_lem : (t : Text) → NoSpace t → rstrip (lstrip t) ≡ t
strip_lem t h = rw (lstrip_lem t h) (rstrip_lem t h)

digit_no_sign : (c : ℕ) → is_digit c ≡ true → ((c == b'-') ≡ false) × ((c == b'+') ≡ false)
unfolding is_digit
digit_no_sign c h = (ground arith, ground arith)

pub digit_no_colon : (c : ℕ) → is_digit c ≡ true → (c == b':') ≡ false
unfolding is_digit
digit_no_colon c h = ground arith

signed-AllDigits : (t : Text) → AllDigits t → signed t ≡ positive (scan_digits 0 false t)
unfolding signed
signed-AllDigits [] h = unfold positive scan_digits in refl
signed-AllDigits (c ∷ cs) h = let (minus, plus) = digit_no_sign c h.0 in rw (minus, plus)

int_text-AllDigits : (t : Text) → AllDigits t → int_text t ≡ positive (scan_digits 0 false t)
unfolding int_text
int_text-AllDigits t h = rw (strip_lem t (AllDigits-NoSpace t h)) (signed-AllDigits t h)

int_text-minus : (t : Text) → AllDigits t → int_text (b'-' ∷ t) ≡ negate (scan_digits 0 false t)
unfolding int_text
int_text-minus t h =
    rw (strip_lem (b'-' ∷ t) (unfold is_space in refl, AllDigits-NoSpace t h))
      (unfold signed in refl)

negate-suc : (n : ℕ) → negate (some (n + 1)) ≡ some (negsuc n)
unfolding negate
negate-suc n = ground arith

-- Printing an integer and reading the text back gives the integer.
pub int_text-str_int : (n : ℤ) → int_text (str_int n) ≡ some n
unfolding str_int
int_text-str_int (pos n) =
    int_text-AllDigits (decimal n) (decimal-AllDigits n)
    ∙ ap positive (scan-decimal n)
    ∙ unfold positive in refl
int_text-str_int (negsuc n) =
    int_text-minus (decimal (n + 1)) (decimal-AllDigits (n + 1))
    ∙ ap negate (scan-decimal (n + 1))
    ∙ negate-suc n
