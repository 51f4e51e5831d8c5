-- ===== src/Manage/Address.antt =====
-- The address of a renderer, `ip:port` in src/server.cpp: std::getline and std::stoi as
-- socket_manage_thread calls them. A text is the list of its characters' codes.
pub mod Decimal
pub mod RoundTrip
mod Tests
use ngp_encode_server.Base.{
  ℕ, zero, suc, ◌+◌, ◌*◌, ◌-◌, ◌^◌, ◌%◌, List, [], ◌∷◌, Bool, true, false, ◌&&◌, ◌||◌, ◌==◌, ltb,
  leb, if◌then◌else◌,
}
use ngp_encode_server.Base.Int.{ℤ, pos, negsuc}
use ngp_encode_server.Base.Exceptions.{Result, ok, throws, invalid_argument, out_of_range}

-- The codes of ':', '+' and '-'.
abbrev pub colon : ℕ
colon = 58

abbrev pub plus : ℕ
plus = 43

abbrev pub minus : ℕ
minus = 45

-- std::getline up to a colon: what is stored, and what is left in the stream. A stream that is at its
-- end stores nothing.
pub getline : List ℕ → List ℕ × List ℕ
getline [] = ([], [])
getline (c ∷ cs) =
    let (line, rest) = getline cs in if c == colon then ([], cs) else (c ∷ line, rest)

abbrev pub is_digit : ℕ → Bool
is_digit c = leb 48 c && leb c 57

-- isspace
abbrev pub is_space : ℕ → Bool
is_space c = c == 32 || (leb 9 c && leb c 13)

pub skip_spaces : List ℕ → List ℕ
skip_spaces [] = []
skip_spaces (c ∷ cs) = let rest = skip_spaces cs in if is_space c then rest else c ∷ cs

-- The value of the digits in front, after those with the value `n`.
pub read_digits : ℕ → List ℕ → ℕ
read_digits n [] = n
read_digits n (c ∷ cs) =
    let rest = read_digits (n * 10 + (c - 48)) cs in if is_digit c then rest else n

-- The number in front, if there is a digit.
pub read_number : List ℕ → Result ℕ
read_number [] = throws invalid_argument
read_number (c ∷ cs) = if is_digit c then ok (read_digits 0 (c ∷ cs)) else throws invalid_argument

-- An int, from the sign and the number.
abbrev pub positive : ℕ → Result ℤ
positive n = if ltb n (2 ^ 31) then ok (pos n) else throws out_of_range

abbrev pub negative : ℕ → Result ℤ
negative zero = ok (pos 0)
negative (suc n) = if ltb n (2 ^ 31) then ok (negsuc n) else throws out_of_range

abbrev pub signed : (ℕ → Result ℤ) → Result ℕ → Result ℤ
signed f (ok n) = f n
signed f (throws x) = throws x

pub read_signed : List ℕ → Result ℤ
read_signed [] = throws invalid_argument
read_signed (c ∷ cs) =
    if c == minus
    then signed negative (read_number cs)
    else if c == plus
    then signed positive (read_number cs)
    else signed positive (read_number (c ∷ cs))

-- std::stoi
pub stoi : List ℕ → Result ℤ
stoi cs = read_signed (skip_spaces cs)

-- The conversion to uint16_t.
abbrev pub to_uint16 : ℤ → ℕ
to_uint16 (pos n) = n % 2 ^ 16
to_uint16 (negsuc n) = 2 ^ 16 - 1 - n % 2 ^ 16

abbrev pub with_ip : List ℕ → Result ℤ → Result (List ℕ × ℕ)
with_ip ip (ok port) = ok (ip, to_uint16 port)
with_ip ip (throws x) = throws x

-- The ip and the port of a renderer.
pub parse_renderer : List ℕ → Result (List ℕ × ℕ)
parse_renderer renderer =
    let (ip, rest) = getline renderer in
    let (port_str, _) = getline rest in with_ip ip (stoi port_str)
