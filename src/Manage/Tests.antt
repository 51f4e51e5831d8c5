-- ===== src/Manage/Tests.antt =====
-- A renderer that refuses twice before it is served, and addresses of renderers.
use ngp_encode_server.Base.{ℕ, ◌≤◌, ◌≡◌, refl, List, [], ◌∷◌, ◌++◌, length}
use ngp_encode_server.Base.Exceptions.{ok}
use ngp_encode_server.Manage.Address.{colon, parse_renderer}
use ngp_encode_server.Manage.Address.Decimal.{decimal}
use ngp_encode_server.Manage.Address.RoundTrip.{parse_renderer-decimal}
use ngp_encode_server.Manage.{
  Attempt, socket_fails, connect_fails, connects, initial, run_attempts, refused_descriptors_leak,
}

abbrev attempts : List Attempt
attempts = connect_fails 5 ∷ socket_fails ∷ connect_fails 6 ∷ connects 7 ∷ []

refused_descriptors_leak_example :
    (length (run_attempts attempts initial).descriptors ≡ 2)
    × ((run_attempts attempts initial).error_times ≤ 30)
refused_descriptors_leak_example = refused_descriptors_leak attempts

-- "10.0.0.1"
abbrev ip : List ℕ
ip = 49 ∷ 48 ∷ 46 ∷ 48 ∷ 46 ∷ 48 ∷ 46 ∷ 49 ∷ []

-- The port 75527 is 9991 above 2 ^ 16.
parse_renderer-decimal_example : parse_renderer (ip ++ (colon ∷ decimal 75527 [])) ≡ ok (ip, 9991)
parse_renderer-decimal_example = parse_renderer-decimal ip 75527 [] refl refl
