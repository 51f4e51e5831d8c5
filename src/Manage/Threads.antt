-- ===== src/Manage/Threads.antt =====
-- The threads of all renderers (src/server.cpp, socket_main_thread and the loop of
-- socket_manage_thread from the address on). An exception that leaves a std::thread ends the program.
use ngp_encode_server.Base.{ℕ, ◌≡◌, refl, List, [], ◌∷◌, ◌++◌, Option, none, some, false}
use ngp_encode_server.Base.Exceptions.{Result, ok, throws}
use ngp_encode_server.Manage.{Attempt, Manager, initial, manage_round, run_attempts}
use ngp_encode_server.Manage.Address.{parse_renderer}
use ngp_encode_server.Manage.Address.RoundTrip.{has_colon, parse_renderer_whole}

abbrev pub after_address : Result (List ℕ × ℕ) → Result Manager → Result Manager
after_address (ok _) next = next
after_address (throws x) next = throws x

-- Every round reads the address again.
pub manage_thread : List ℕ → List Attempt → Manager → Result Manager
manage_thread renderer [] m = ok m
manage_thread renderer (a ∷ rest) m =
    after_address (parse_renderer renderer) (manage_thread renderer rest (manage_round a m))

-- A renderer, with the attempts of its thread until the shutdown.
abbrev pub Renderer : Type 0
Renderer = List ℕ × List Attempt

abbrev pub joined : Result Manager → Option (List Manager) → Option (List Manager)
joined (ok m) (some ms) = some (m ∷ ms)
joined (ok m) none = none
joined (throws _) _ = none

-- socket_main_thread: what its threads leave when it has joined them; `none` for std::terminate.
pub socket_main_thread : List Renderer → Option (List Manager)
socket_main_thread [] = some []
socket_main_thread ((renderer, attempts) ∷ rest) =
    joined (manage_thread renderer attempts initial) (socket_main_thread rest)

manage_thread_well :
    (renderer : List ℕ) (attempts : List Attempt) (m : Manager) {address : List ℕ × ℕ}
    → parse_renderer renderer ≡ ok address
    → manage_thread renderer attempts m ≡ ok (run_attempts attempts m)
unfolding manage_thread run_attempts
manage_thread_well renderer [] m h = refl
manage_thread_well renderer (a ∷ rest) m h =
    rw (manage_thread, h) (manage_thread_well renderer rest (manage_round a m) h)

-- The addresses can be read.
abbrev pub AreAddresses : List Renderer → Type 0
AreAddresses [] = Unit
AreAddresses ((renderer, _) ∷ rest) =
    ((address : List ℕ × ℕ) × (parse_renderer renderer ≡ ok address)) × AreAddresses rest

abbrev pub run_all : List Renderer → List Manager
run_all [] = []
run_all ((_, attempts) ∷ rest) = run_attempts attempts initial ∷ run_all rest

-- Reading the address in every round makes no difference: if the addresses can be read, every thread
-- makes all its attempts, and the main thread joins them all.
pub main_thread_joins :
    (rs : List Renderer) → AreAddresses rs → socket_main_thread rs ≡ some (run_all rs)
unfolding socket_main_thread
main_thread_joins [] v = refl
main_thread_joins ((renderer, attempts) ∷ rest) ((_, reads), v) =
    rw (manage_thread_well renderer attempts initial reads, main_thread_joins rest v) refl

joined-none : (r : Result Manager) → joined r none ≡ none
joined-none (ok m) = refl
joined-none (throws x) = refl

-- A renderer that is given without a port ends the program at the first round of its thread, whatever
-- the other renderers are.
pub whole_renderer_terminates :
    (before after : List Renderer) (renderer : List ℕ) (a : Attempt) (attempts : List Attempt)
    → has_colon renderer ≡ false
    → socket_main_thread (before ++ ((renderer, a ∷ attempts) ∷ after)) ≡ none
unfolding socket_main_thread manage_thread
whole_renderer_terminates [] after renderer a attempts h =
    rw (socket_main_thread, manage_thread, parse_renderer_whole renderer h) refl
whole_renderer_terminates ((r, tries) ∷ before) after renderer a attempts h =
    rw (whole_renderer_terminates before after renderer a attempts h)
      (joined-none (manage_thread r tries initial))
