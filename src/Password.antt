-- ===== src/Password.antt =====
-- internal/utils/password.go. The random bytes are a parameter: what `rand.Read` put into the slice.
use Prim.Native.String.{String, [], ◌∷◌}
use challenge_service.Prelude.{ℕ, zero, suc, ◌%◌, List}
use challenge_service.Exec.{Result, value, error}

abbrev pub letters : String
letters = "ABCDEFGHIJKLMNOPQRSTUVWXYZ1234567890"

-- `letters[i]` in front of the rest; the index is always in range
abbrev pub put_letter : String → ℕ → String → String
put_letter [] i rest = rest
put_letter (c ∷ s) zero rest = c ∷ rest
put_letter (c ∷ s) (suc i) rest = put_letter s i rest

unfoldable pub from_bytes : List ℕ → String
from_bytes List.[] = []
from_bytes (List.◌∷◌ x xs) = put_letter letters (x % 36) (from_bytes xs)

unfoldable pub generate_big_cap_password : Result (List ℕ) → String
unfolding from_bytes
generate_big_cap_password (error _) = ""
generate_big_cap_password (value bytes) = from_bytes bytes
