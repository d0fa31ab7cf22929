-- ===== src/Agent/Http.antt =====
-- agent/routes.py: what a handler ends with.
use sim_bridge.Prelude.{ℕ, nat_eq, Text, Bool, true, false, ◌&&◌, [], ◌∷◌, is_empty, if◌then◌else◌}

pub data Reply {ℓ} (A : Type ℓ) : Type ℓ where
  -- The handler returns.
  returned : A → Reply A
  -- `HTTPException` with its status code and its detail
  http_error : ℕ → Text → Reply A
  -- Another exception leaves the handler.
  raised : Reply A

-- Whether the handler has answered the request.
abbrev pub is_returned {ℓ} : {A : Type ℓ} → Reply A → Bool
is_returned (returned a) = true
is_returned _ = false

-- `s.rstrip("/")`
unfoldable pub strip_slashes : Text → Text
strip_slashes [] = []
strip_slashes (c ∷ s) =
    let rest = strip_slashes s in if is_empty rest && nat_eq c 47 then [] else c ∷ rest
