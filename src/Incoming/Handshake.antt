-- ===== src/Incoming/Handshake.antt =====
-- The handshake of a client, vangers-srv/src/client.rs.
use vangers_srv.Base.{
  ℕ, ◌+◌, Bool, true, not, ◌&&◌, Option, none, some, List, [], ◌∷◌, ◌++◌, ltb, ◌==◌, if◌then◌else◌,
  length, byte, Result, ok, err,
}

-- `HS_IN`: "Vivat Sicher, Rock'n'Roll forever!!!"
abbrev pub hs_in : List ℕ
hs_in =
    b'V' ∷ b'i' ∷ b'v' ∷ b'a' ∷ b't' ∷ b' ' ∷ b'S' ∷ b'i' ∷ b'c' ∷ b'h' ∷ b'e' ∷ b'r' ∷ b',' ∷ b' '
    ∷ b'R' ∷ b'o' ∷ b'c' ∷ b'k' ∷ 39 ∷ b'n' ∷ 39 ∷ b'R' ∷ b'o' ∷ b'l' ∷ b'l' ∷ b' ' ∷ b'f' ∷ b'o'
    ∷ b'r' ∷ b'e' ∷ b'v' ∷ b'e' ∷ b'r' ∷ b'!' ∷ b'!' ∷ b'!' ∷ []

-- `HS_OUT`: "Enter, my son, please..."
abbrev pub hs_out : List ℕ
hs_out =
    b'E' ∷ b'n' ∷ b't' ∷ b'e' ∷ b'r' ∷ b',' ∷ b' ' ∷ b'm' ∷ b'y' ∷ b' ' ∷ b's' ∷ b'o' ∷ b'n' ∷ b','
    ∷ b' ' ∷ b'p' ∷ b'l' ∷ b'e' ∷ b'a' ∷ b's' ∷ b'e' ∷ b'.' ∷ b'.' ∷ b'.' ∷ []

abbrev pub protocol_version : ℕ
protocol_version = 6

-- `AuthError`; its cases `HsResponse` and `Connection` are failures of the socket.
pub data AuthError : Type 0 where
  closed_by_client : AuthError
  hs_unexpected_request_header : AuthError
  hs_unexpected_protocol_version : ℕ → AuthError
  hs_zero_terminated : AuthError

-- `received[..prefix_len] == HS_IN[..prefix_len]`, where the length is the smaller one.
unfoldable pub agrees : List ℕ → List ℕ → Bool
agrees [] ys = true
agrees (x ∷ xs) [] = true
agrees (x ∷ xs) (y ∷ ys) = (x == y) && agrees xs ys

-- What the loop does with the bytes that came so far: it reads on, or it ends.
unfoldable pub judge : List ℕ → Option (Result AuthError ℕ)
judge received =
    if not (agrees hs_in received)
    then some (err hs_unexpected_request_header)
    else if ltb (length received) (length hs_in)
    then none
    else if ltb (length hs_in) (length received) && not (byte received (length hs_in) == 0)
    then some (err hs_zero_terminated)
    else if ltb (length received) (length hs_in + 2)
    then none
    else (let version = byte received (length hs_in + 1) in
        if version == protocol_version
        then some (ok version)
        else some (err (hs_unexpected_protocol_version version)))

-- The loop of `auth`, on the chunks that are read until the client closes the connection, and the bytes
-- that are written: the answer to a whole handshake has the version of the server.
unfoldable pub auth : List ℕ → List (List ℕ) → Result AuthError ℕ
auth received [] = err closed_by_client
auth received (chunk ∷ chunks) = elim (judge (received ++ chunk)) [
  | some r ↦ r
  | none ↦ auth (received ++ chunk) chunks
]

-- `send_handshake_response`
abbrev pub handshake_response : ℕ → List ℕ
handshake_response version = hs_out ++ (0 ∷ version ∷ [])

-- What is written to the client at the end of the handshake.
abbrev pub handshake_answer : Result AuthError ℕ → List ℕ
handshake_answer (ok version) = handshake_response version
handshake_answer (err (hs_unexpected_protocol_version version)) =
    handshake_response protocol_version
handshake_answer _ = []
