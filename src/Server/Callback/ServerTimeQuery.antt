-- ===== src/Server/Callback/ServerTimeQuery.antt =====
-- SERVER_TIME_QUERY, vangers-srv/src/server/callback/server_time_query.rs.
use vangers_srv.Base.{ℕ, ◌*◌, ◌%◌, ◌^◌, to_le}
use vangers_srv.Base.Exec.{Exec, gets, ◌>>=◌}
use vangers_srv.Protocol.{Packet}
use vangers_srv.Server.{Server}
use vangers_srv.Server.Errors.{OnUpdateError, OnUpdateOk}
use vangers_srv.Server.Callback.Answers.{respond}

-- `self.uptime() * 256` on a `u32`, which wraps around.
unfoldable pub server_time : ℕ → ℕ
server_time now = now % 2 ^ 32 * 256 % 2 ^ 32

-- `server_time_query`
unfoldable pub server_time_query : ℕ → Packet → Exec Server OnUpdateError OnUpdateOk
server_time_query client_id packet = do
  now ← gets λ (s : Server). s.now
  respond packet (to_le 4 (server_time now))
