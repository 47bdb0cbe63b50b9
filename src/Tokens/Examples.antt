-- ===== src/Tokens/Examples.antt =====
-- A store of two tokens.
use listnun.Prelude.{ℕ, ◌≤◌, refl, none, some, List, [], ◌∷◌, Text, codes, text_eq, if◌then◌else◌}
use listnun.Tokens.{Tokens, Call, sets, checks, gets, cleans, call_all}
use listnun.Tokens.Limits.{tries, uses, is_check, is_get, successes, call_all_limits}

abbrev reset : Text
reset = codes "reset"

abbrev login : Text
login = codes "login"

abbrev store : Tokens ℕ
store k =
    if text_eq k reset
    then some (record { ttl = 30; created_at = 100; count = 14; value = 7 })
    else (if text_eq k login
        then some (record { ttl = 5; created_at = 100; count = 0; value = 8 })
        else none)

abbrev calls : List (Call ℕ)
calls =
    checks 101 reset
    ∷ checks 102 reset
    ∷ sets 103 login 5 9
    ∷ gets 104 reset
    ∷ cleans 120
    ∷ gets 121 reset
    ∷ []

call_all_limits_example :
    (successes (is_check reset) calls (call_all calls store).0 ≤ tries (store reset))
    × (successes (is_get reset) calls (call_all calls store).0 ≤ uses (store reset))
    × ((tries (store reset) ≤ 15) × (uses (store reset) ≤ 1))
unfolding text_eq
call_all_limits_example =
    call_all_limits reset calls store (refl, (refl, (refl, (refl, (refl, (refl, tt))))))
