-- ===== src/Server/Callback/Tables/Worlds.antt =====
-- Entering a world keeps what holds of every game (callback/set_world.rs).
use vangers_srv.Base.{
  ℕ, ◌≡◌, refl, sym, subst, arith, Bool, some, List, [], ◌∷◌, ok, find, Option-cases, inl, inr,
  ◌==◌,
}
use vangers_srv.Base.Keeps.{
  Keeps, then-Keeps, lift-at, require-at, expect-at, lift-then-Keeps, check-then-Keeps, expect-then,
}
use vangers_srv.Protocol.{Packet, new, create_answer}
use vangers_srv.Protocol.Actions.{Action}
use vangers_srv.Player.{Player, World, gaming}
use vangers_srv.Game.{Game, get_player, place_player, set_player}
use vangers_srv.Game.Valid.{IsGame, SameIds-IsGame, set_player-IsGame}
use vangers_srv.Server.Errors.{SetWorldError, player_not_bind, invalid_world_size}
use vangers_srv.Server.Callback.TotalPlayersDataQuery.{total_players_data_packet}
use vangers_srv.Server.Callback.SetWorld.{enter, status_packet, entry, place, set_world_in_game}
use vangers_srv.Server.Callback.SetWorld.Snapshot.{snapshot, snapshot_packets}

-- Where a player is placed, it is in the world and plays.
pub place_player_written :
    {E : Type 0} (g g' : Game) (client_id : ℕ) (w : World) (started : Bool)
    → place_player {E = E} g client_id w ≡ ok (started, g')
    → (p : Player) × (v : World) × (get_player client_id g.players ≡ some p)
      × (g' ≡ record g {
        players = set_player client_id (record p { world = some v; status = gaming }) g.players;
      })
unfolding place_player
place_player_written {E} g g' client_id w started h =
    elim (Option-cases (get_player client_id g.players)) [
      | inl e ↦ absurd (ground arith)
      | inr (p, e) ↦ elim (Option-cases (find (λ v. v.id == w.id) g.worlds)) [
        | inl e' ↦ absurd (ground arith)
        | inr (v, e') ↦ (p, v, e, ground arith)
      ]
    ]

module _ (k client_id : ℕ) where
  enter-IsGame : (world_id y_size : ℕ) → Keeps (IsGame k) (enter world_id y_size)
  unfolding enter
  enter-IsGame world_id y_size g h = elim (Option-cases (find (λ w. w.id == world_id) g.worlds)) [
    | inl e ↦ rw e (SameIds-IsGame k g _ (refl, refl) h.stored h)
    | inr (w, e) ↦ rw e (
        check-then-Keeps (IsGame k) (w.y_size == y_size) (invalid_world_size w.y_size y_size) _
          (λ s v. v) g h)
  ]

  place-IsGame : (E : Type 0) (w : World) → Keeps (IsGame k) (place {E = E} client_id w)
  unfolding place
  place-IsGame E w g h = lift-at (IsGame k) (place_player g client_id w) _ g h (λ r e.
      let (p, v, found, written) = place_player_written g r.1 client_id w r.0 e in
      subst (IsGame k) (sym written) (set_player-IsGame k client_id _ g p found refl h))

  entry-IsGame :
      (E : Type 0) (packet : Packet) (bind_id world_id world_status : ℕ) (objects : List Packet)
      (started : Bool)
      → Keeps (IsGame k) (entry {E = E} packet bind_id world_id world_status objects started)
  unfolding entry
  entry-IsGame E packet bind_id world_id world_status objects started =
      lift-then-Keeps (IsGame k) (status_packet started bind_id) _ (λ status.
        lift-then-Keeps (IsGame k) (new Action.players_world (bind_id ∷ world_id ∷ [])) _ (λ world.
          expect-then (IsGame k) (create_answer packet (world_id ∷ world_status ∷ [])) _ (λ answer.
            lift-then-Keeps (IsGame k) (new Action.world_snapshot_begin (world_id ∷ [])) _
              (λ begin g.
                lift-then-Keeps (IsGame k) (total_players_data_packet g) _
                  (λ players.
                    lift-then-Keeps (IsGame k) (new Action.world_snapshot_end (world_id ∷ [])) _
                      (λ last s h. h))
                  g))))

  pub set_world_in_game-IsGame :
      (packet : Packet) (world_id y_size : ℕ)
      → Keeps (IsGame k) (set_world_in_game client_id packet world_id y_size)
  unfolding set_world_in_game
  set_world_in_game-IsGame packet world_id y_size =
      then-Keeps (IsGame k) (enter world_id y_size) _ (enter-IsGame world_id y_size) (λ r g h.
        expect-at (IsGame k) (get_player client_id g.players) _ g h (λ p found.
          require-at (IsGame k) p.bind (player_not_bind client_id) _ g h (λ b bound.
            lift-at (IsGame k) (snapshot_packets (snapshot world_id b g.vanjects)) _ g h
              (λ objects e.
                then-Keeps (IsGame k) (place client_id r.0) _ (place-IsGame SetWorldError r.0)
                  (λ started. entry-IsGame SetWorldError packet b world_id r.1 objects started) g
                  h))))
