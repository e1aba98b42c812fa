-- ===== src/Server/Callback/RegisterName/Names.antt =====
-- The name and the password of a REGISTER_NAME, vangers-srv/src/server/callback/register_name.rs.
use vangers_srv.Base.{
  ℕ, ◌-◌, Bool, not, ◌&&◌, ◌||◌, List, [], ◌∷◌, ◌++◌, map, ltb, ◌==◌, if◌then◌else◌, length, take,
  drop, until_nul, Result, ok, ok_or, guard, ◌>>=◌, ◌>>◌,
}
use vangers_srv.Server.Errors.{RegisterNameError, name_or_password_parse, name_is_null}

-- A name of more than sixteen bytes is cut to fifteen.
unfoldable pub cut : List ℕ → List ℕ
cut name = if ltb 16 (length name - 1) then take 15 name ++ 0 ∷ [] else name

-- `c == 127 || c > 0 && c < 32`
abbrev pub is_control : ℕ → Bool
is_control c = c == 127 || ltb 0 c && ltb c 32

-- `map` replaces control characters by an asterisk; it runs only if there are some.
unfoldable pub printable : List ℕ → List ℕ
printable name = map (λ c. if is_control c then 42 else c) name

-- `extract_auth_data`
unfoldable pub extract_auth_data : List ℕ → Result RegisterNameError (List ℕ × List ℕ)
unfolding cut printable
extract_auth_data bytes = do
  name ← ok_or (until_nul bytes) name_or_password_parse
  guard (not (length name == 1)) name_is_null
  guard (ltb (length name) (length bytes)) name_or_password_parse
  pwd ← ok_or (until_nul (drop (length name) bytes)) name_or_password_parse
  ok (printable (cut name), pwd)
