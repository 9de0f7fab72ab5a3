-- ===== src/Payments/Card.antt =====
-- The checks of `pay_order` on the card. A text is the list of its code points.
use flux_kart.Prelude.{
  ℕ, ◌-◌, Bool, Option, none, some, List, [], ◌∷◌, ◌++◌, ◌>>=◌, ◌==◌, ltb, not, ◌&&◌, ◌||◌,
  if◌then◌else◌, length, select, drop,
}
use flux_kart.Prelude.Int.{ℤ, pos, ◌+ℤ◌, ltb_ℤ}

-- What the constructor of `datetime` does: the time in milliseconds, a ValueError for a date that there
-- is not, or an OverflowError for a number that is no C int.
pub data Dated : Type 0 where
  dated : ℤ → Dated
  value_error overflow_error : Dated

-- Python's `str.isdigit`, `int` and the first day of a month of a year.
pub record Python : Type 0 where
  pub is_digit : List ℕ → Bool
  pub int : List ℕ → Option ℤ
  pub month_start : ℤ → ℤ → Dated

pub record PaymentRequest : Type 0 where
  pub card_number : List ℕ
  pub expiry : List ℕ
  pub cvv : List ℕ

-- payload.card_number[-4:], for the key of the payment
abbrev pub card_last4 : PaymentRequest → List ℕ
card_last4 p = drop (length p.card_number - 4) p.card_number

-- .replace(" ", "").replace("-", "")
abbrev pub card_digits : PaymentRequest → List ℕ
card_digits p = select (λ c. not (c == b' ') && not (c == b'-')) p.card_number

-- text.split("/") for the assignment to two names: any other number of parts is a ValueError.
split_slash : List ℕ → List ℕ → Option (List ℕ × List ℕ)
split_slash seen [] = none
split_slash seen (c ∷ rest) =
    let later = split_slash (seen ++ c ∷ []) rest in
    if c == b'/'
    then (if ltb 0 (length (select (λ d. d == b'/') rest)) then none else some (seen, rest))
    else later

-- `exp_date`; `none` is a ValueError of the texts.
exp_date : Python → List ℕ → Option Dated
unfolding split_slash
exp_date py expiry = do
  (month, year) ← split_slash [] expiry
  y ← py.int year
  m ← py.int month
  some (py.month_start (if length year == 2 then pos 2000 +ℤ y else y) m)

-- The status of the refusal. An OverflowError is not caught.
expiry_error : ℕ → Option Dated → Option ℕ
expiry_error now none = some 400
expiry_error now (some value_error) = some 400
expiry_error now (some overflow_error) = some 500
expiry_error now (some (dated start)) = if ltb_ℤ start (pos now) then some 400 else none

-- card_digits[-4:], for the receipt
abbrev pub digits_last4 : PaymentRequest → List ℕ
digits_last4 p = drop (length (card_digits p) - 4) (card_digits p)

unfoldable pub card_error : Python → ℕ → PaymentRequest → Option ℕ
unfolding exp_date expiry_error
card_error py now p =
    let digits = card_digits p in
    if not (py.is_digit digits) || not (length digits == 15 || length digits == 16)
    then some 400
    else if not (py.is_digit p.cvv) || not (length p.cvv == 3 || length p.cvv == 4)
    then some 400
    else expiry_error now (exp_date py p.expiry)
