-- ===== src/Server/Callback/DirectSending/Messages.antt =====
-- The text of a DIRECT_SENDING, vangers-srv/src/server/callback/direct_sending.rs.
use vangers_srv.Base.{ℕ, ◌-◌, List, [], ◌∷◌, ◌++◌, ltb, if◌then◌else◌, length, take}

abbrev pub limit_msg_len : ℕ
limit_msg_len = 140

-- A text that is too long is cut, and three dots and a null byte follow.
unfoldable pub limited : List ℕ → List ℕ
limited text =
    if ltb limit_msg_len (length text)
    then take (limit_msg_len - 3 - 1) text ++ (b'.' ∷ b'.' ∷ b'.' ∷ 0 ∷ [])
    else text
