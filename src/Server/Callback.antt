-- ===== src/Server/Callback.antt =====
-- The handlers of vangers-srv/src/server/callback/.
pub mod Items
pub mod TransferPacket
pub mod ItemTransfer
pub mod UpdateObject
pub mod DeleteObject
pub mod CreateObject
pub mod LeaveWorld
pub mod CloseSocket
pub mod SetPosition
pub mod RestoreConnection
pub mod Answers
pub mod ServerTimeQuery
pub mod GetGameData
pub mod SetGameData
pub mod TotalPlayersDataQuery
pub mod GamesListQuery
pub mod SetPlayerData
pub mod RegisterName
pub mod DirectSending
pub mod TopListQuery
pub mod AttachToGame
pub mod SetWorld
pub mod Packets
pub mod Tables
