-- ===== src/Server/Callback/DirectSending/Bounds.antt =====
-- What a DIRECT_SENDING comes to (callback/direct_sending.rs).
use vangers_srv.Base.{ℕ, ◌≤◌, ◌<◌, ◌⊎◌, ◌≡◌, List, [], ◌∷◌, ◌++◌, length, take}
use vangers_srv.Base.Cstrings.{IsText}
use vangers_srv.Base.Exec.{Exec}
use vangers_srv.Game.{Game}
use vangers_srv.Server.{Server}
use vangers_srv.Server.Callback.DirectSending.Addressed.{Sender, Receivers}

-- A C string of at most 140 bytes with its null byte.
pub record IsShort (bytes : List ℕ) : Type 0 where
  pub text : List ℕ
  pub is_text : IsText bytes text
  pub short : length bytes ≤ 140

-- A text that starts the bytes, up to the first null byte and with it.
record Begins (bytes name : List ℕ) : Type 0 where
  text : List ℕ
  rest : List ℕ
  is_text : IsText name text
  given : bytes ≡ name ++ rest

-- A text as it is sent on: one of more than 140 bytes is cut behind 136, and three dots and a null
-- byte follow.
abbrev pub Shortened : List ℕ → List ℕ → Type 0
Shortened name text =
    ((length name ≤ 140) × (text ≡ name))
    ⊎ ((140 < length name) × (text ≡ take 136 name ++ (b'.' ∷ b'.' ∷ b'.' ∷ 0 ∷ [])))

-- The clients that get a message with the given bytes, and its data.
pub record Message (client_id : ℕ) (g : Game) (mask : ℕ) (given ids sent : List ℕ) : Type 0 where
  pub player_id : ℕ
  pub sent_by : Sender client_id player_id g.players
  pub name : List ℕ
  pub whole : List ℕ
  pub rest : List ℕ
  pub is_text : IsText name whole
  pub begins : given ≡ name ++ rest
  pub text : List ℕ
  pub shortened : Shortened name text
  pub is_short : IsShort text
  pub contents : sent ≡ player_id ∷ text
  pub reached : Receivers client_id mask g.players ids
