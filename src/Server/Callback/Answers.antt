-- ===== src/Server/Callback/Answers.antt =====
-- What ends a handler that answers the sender, vangers-srv/src/server/callback/*.rs.
use vangers_srv.Base.{ℕ, List}
use vangers_srv.Base.Exec.{Exec, pure, require, ◌>>=◌}
use vangers_srv.Protocol.{Packet, create_answer}
use vangers_srv.Server.{Server}
use vangers_srv.Server.Errors.{OnUpdateError, response_packet_type_not_exist, OnUpdateOk, response}

-- `packet.create_answer(data).ok_or(ResponsePacketTypeNotExist(packet.action))`
unfoldable pub answer : Packet → List ℕ → Exec Server OnUpdateError Packet
answer packet bytes =
    require (create_answer packet bytes) (response_packet_type_not_exist packet.action)

unfoldable pub respond : Packet → List ℕ → Exec Server OnUpdateError OnUpdateOk
unfolding answer
respond packet bytes = do p ← answer packet bytes; pure (response p)
