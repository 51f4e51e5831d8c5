-- ===== src/Manage/Address/Tests.antt =====
-- Ports that are no plain numbers.
use ngp_encode_server.Base.{◌≡◌, refl, [], ◌∷◌}
use ngp_encode_server.Base.Exceptions.{ok, throws, invalid_argument}
use ngp_encode_server.Manage.Address.{
  colon, parse_renderer, getline, stoi, skip_spaces, read_signed, read_number, read_digits,
}

-- " -1" and "x" as ports.
odd_ports :
    (parse_renderer (49 ∷ colon ∷ 32 ∷ 45 ∷ 49 ∷ []) ≡ ok (49 ∷ [], 65535))
    × (parse_renderer (49 ∷ colon ∷ 120 ∷ []) ≡ throws invalid_argument)
unfolding parse_renderer getline stoi skip_spaces read_signed read_number read_digits
odd_ports = (refl, refl)
