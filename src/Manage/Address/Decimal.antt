-- ===== src/Manage/Address/Decimal.antt =====
-- Decimal digits against their reading.
use ngp_encode_server.Base.{
  ℕ, zero, suc, ◌+◌, ◌*◌, ◌/◌, ◌%◌, ◌<◌, ◌≡◌, refl, ap, ◌∙◌, List, [], ◌∷◌, true, ltb,
  if◌then◌else◌, Bool-cases, inl, inr, arith, ltb→lt,
}
use ngp_encode_server.Manage.Address.{is_digit, read_digits, getline}

-- The digits of n before `rest`; `fuel` is above n.
pub digits : ℕ → ℕ → List ℕ → List ℕ
digits zero n rest = rest
digits (suc fuel) n rest =
    let more = digits fuel (n / 10) ((48 + n % 10) ∷ rest) in
    if ltb n 10 then (48 + n) ∷ rest else more

-- The usual decimal notation, before `rest`.
pub decimal : ℕ → List ℕ → List ℕ
decimal n rest = digits (suc n) n rest

decimal_9991 : decimal 9991 [] ≡ 57 ∷ 57 ∷ 57 ∷ 49 ∷ []
unfolding decimal digits
decimal_9991 = refl

-- A text that a digit starts.
abbrev pub StartsWithDigit : List ℕ → Type 0
StartsWithDigit [] = ⊥
StartsWithDigit (c ∷ cs) = is_digit c ≡ true

digit_code : (d : ℕ) → d < 10 → is_digit (48 + d) ≡ true
digit_code d h = ground arith

read_digit :
    (n d k : ℕ) (rest : List ℕ)
    → d < 10
    → n * 10 + d ≡ k
    → read_digits n ((48 + d) ∷ rest) ≡ read_digits k rest
unfolding read_digits
read_digit n d k rest h e = rw (digit_code d h) (ap (λ m. read_digits m rest) (omega arith))

digits_lem :
    (fuel n : ℕ) (rest : List ℕ)
    → n < fuel
    → (read_digits 0 (digits fuel n rest) ≡ read_digits n rest)
      × StartsWithDigit (digits fuel n rest)
unfolding digits
digits_lem zero n rest h = elim h [ ]
digits_lem (suc fuel) n rest h = elim (Bool-cases (ltb n 10)) [
  | inl small ↦
      rw small
        (read_digit 0 n n rest (ltb→lt n 10 small) (omega arith), digit_code n (ltb→lt n 10 small))
  | inr large ↦
      let (value, starts) = digits_lem fuel (n / 10) ((48 + n % 10) ∷ rest) (ground arith) in
      rw large (value ∙ read_digit (n / 10) (n % 10) n rest (omega arith) (omega arith), starts)
]

pub read_digits-decimal :
    (n : ℕ) (rest : List ℕ) → read_digits 0 (decimal n rest) ≡ read_digits n rest
unfolding decimal
read_digits-decimal n rest = (digits_lem (suc n) n rest (omega arith)).0

pub decimal-StartsWithDigit : (n : ℕ) (rest : List ℕ) → StartsWithDigit (decimal n rest)
unfolding decimal
decimal-StartsWithDigit n rest = (digits_lem (suc n) n rest (omega arith)).1

getline_digit :
    (d : ℕ) (rest : List ℕ) → d < 10 → (getline ((48 + d) ∷ rest)).0 ≡ (48 + d) ∷ (getline rest).0
unfolding getline
getline_digit d rest h = ground arith

getline-digits :
    (fuel n : ℕ) (rest : List ℕ)
    → n < fuel
    → (getline (digits fuel n rest)).0 ≡ digits fuel n (getline rest).0
unfolding digits
getline-digits zero n rest h = elim h [ ]
getline-digits (suc fuel) n rest h = elim (Bool-cases (ltb n 10)) [
  | inl small ↦ rw small (getline_digit n rest (ltb→lt n 10 small))
  | inr large ↦ rw large (
      getline-digits fuel (n / 10) ((48 + n % 10) ∷ rest) (ground arith)
      ∙ ap (digits fuel (n / 10)) (getline_digit (n % 10) rest (omega arith)))
]

pub getline-decimal :
    (n : ℕ) (rest : List ℕ) → (getline (decimal n rest)).0 ≡ decimal n (getline rest).0
unfolding decimal
getline-decimal n rest = getline-digits (suc n) n rest (omega arith)
