-- ===== src/Manage/Address/RoundTrip.antt =====
-- What the address of a renderer is read as.
use ngp_encode_server.Base.{
  ℕ, ◌%◌, ◌^◌, ◌≡◌, refl, ap, ◌∙◌, List, [], ◌∷◌, ◌++◌, Bool, false, ◌||◌, ◌==◌, ltb, if◌then◌else◌,
  Bool-cases, or_false, inl, inr, arith,
}
use ngp_encode_server.Base.Exceptions.{ok, throws, invalid_argument, out_of_range}
use ngp_encode_server.Manage.Address.{
  colon, getline, is_digit, skip_spaces, read_digits, read_number, read_signed, stoi, positive,
  parse_renderer,
}
use ngp_encode_server.Manage.Address.Decimal.{
  decimal, StartsWithDigit, read_digits-decimal, decimal-StartsWithDigit, getline-decimal,
}

abbrev pub has_colon : List ℕ → Bool
has_colon [] = false
has_colon (c ∷ cs) = c == colon || has_colon cs

abbrev pub starts_with_digit : List ℕ → Bool
starts_with_digit [] = false
starts_with_digit (c ∷ cs) = is_digit c

getline-colon :
    (ip rest : List ℕ) → has_colon ip ≡ false → getline (ip ++ (colon ∷ rest)) ≡ (ip, rest)
unfolding getline
getline-colon [] rest h = refl
getline-colon (c ∷ ip) rest h =
    let (here, later) = or_false (c == colon) (has_colon ip) h in
    rw (here, getline-colon ip rest later) refl

getline_all : (cs : List ℕ) → has_colon cs ≡ false → getline cs ≡ (cs, [])
unfolding getline
getline_all [] h = refl
getline_all (c ∷ cs) h =
    let (here, later) = or_false (c == colon) (has_colon cs) h in
    rw (here, getline_all cs later) refl

-- What stands behind the port does not change its value.
read_digits_tail :
    (n : ℕ) (tail : List ℕ) → starts_with_digit tail ≡ false → read_digits n (getline tail).0 ≡ n
unfolding read_digits getline
read_digits_tail n [] h = refl
read_digits_tail n (c ∷ cs) h = elim (Bool-cases (c == colon)) [
  | inl ends ↦ rw ends refl
  | inr goes ↦ rw (goes, h) refl
]

stoi_digits : (cs : List ℕ) → StartsWithDigit cs → stoi cs ≡ positive (read_digits 0 cs)
unfolding stoi skip_spaces read_signed read_number
stoi_digits [] h = elim h [ ]
stoi_digits (c ∷ cs) h = ground arith

stoi-port :
    (n : ℕ) (tail : List ℕ)
    → starts_with_digit tail ≡ false
    → stoi (getline (decimal n tail)).0 ≡ positive n
stoi-port n tail ends =
    ap stoi (getline-decimal n tail)
    ∙ stoi_digits (decimal n (getline tail).0) (decimal-StartsWithDigit n (getline tail).0)
    ∙ ap positive (read_digits-decimal n (getline tail).0 ∙ read_digits_tail n tail ends)

-- A renderer `ip:port` whose port is any number in decimal notation, followed by anything but a
-- digit: the thread connects to this ip, at the port modulo 2 ^ 16 if the number is an int, and
-- std::out_of_range is thrown if it is not.
pub parse_renderer-decimal :
    (ip : List ℕ) (n : ℕ) (tail : List ℕ)
    → has_colon ip ≡ false
    → starts_with_digit tail ≡ false
    → parse_renderer (ip ++ (colon ∷ decimal n tail))
      ≡ (if ltb n (2 ^ 31) then ok (ip, n % 2 ^ 16) else throws out_of_range)
unfolding parse_renderer
parse_renderer-decimal ip n tail whole ends =
    rw (getline-colon ip (decimal n tail) whole, stoi-port n tail ends) (ground arith)

-- Without a colon there is no port, and std::invalid_argument is thrown.
pub parse_renderer_whole :
    (renderer : List ℕ)
    → has_colon renderer ≡ false
    → parse_renderer renderer ≡ throws invalid_argument
unfolding parse_renderer stoi skip_spaces read_signed getline
parse_renderer_whole renderer h = rw (getline_all renderer h) refl
