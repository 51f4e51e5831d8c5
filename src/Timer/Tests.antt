-- ===== src/Timer/Tests.antt =====
-- Two scopes of one and a half milliseconds each.
use ngp_encode_server.Base.{◌≡◌, refl, [], ◌∷◌}
use ngp_encode_server.Timer.{total, elapsed}

two_scopes : total 0 (1500000 ∷ 3000000 ∷ []) ≡ 2
unfolding total elapsed
two_scopes = refl
