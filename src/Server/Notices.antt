-- ===== src/Server/Notices.antt =====
-- Notifications never fail and change only what was sent, vangers-srv/src/server/server.rs.
use vangers_srv.Base.{ok, ℕ, ◌≡◌, Bool, arith}
use vangers_srv.Base.Atomic.{NeverFails}
use vangers_srv.Protocol.{Packet}
use vangers_srv.Server.{Server, Channel, notify, notify_world}

module _ (E : Type 0) where
  pub notify-NeverFails :
      (c : Channel) (client_id : ℕ) (p : Packet) (filter : ℕ → Bool)
      → NeverFails (notify {E = E} c client_id p filter)
  unfolding notify
  notify-NeverFails c client_id p filter s e h = ground arith

  pub notify_world-NeverFails :
      (c : Channel) (client_id world_id : ℕ) (p : Packet) (sender : Bool)
      → NeverFails (notify_world {E = E} c client_id world_id p sender)
  unfolding notify_world
  notify_world-NeverFails c client_id world_id p sender s e h = ground arith

  -- The games stay.
  pub notify-games :
      (c : Channel) (client_id : ℕ) (p : Packet) (filter : ℕ → Bool) (s : Server)
      → (notify {E = E} c client_id p filter s).1.games ≡ s.games
  unfolding notify
  notify-games c client_id p filter s = ground arith

  pub notify_world-games :
      (c : Channel) (client_id world_id : ℕ) (p : Packet) (sender : Bool) (s : Server)
      → (notify_world {E = E} c client_id world_id p sender s).1.games ≡ s.games
  unfolding notify_world
  notify_world-games c client_id world_id p sender s = ground arith

  pub notify-ok :
      (c : Channel) (client_id : ℕ) (p : Packet) (filter : ℕ → Bool) (s : Server)
      → (notify {E = E} c client_id p filter s).0 ≡ ok tt
  unfolding notify
  notify-ok c client_id p filter s = ground arith

  pub notify_world-ok :
      (c : Channel) (client_id world_id : ℕ) (p : Packet) (sender : Bool) (s : Server)
      → (notify_world {E = E} c client_id world_id p sender s).0 ≡ ok tt
  unfolding notify_world
  notify_world-ok c client_id world_id p sender s = ground arith
