-- ===== src/Server/Callback/SetWorld/Entered.antt =====
-- What an entry into a world does to the game (callback/set_world.rs).
use vangers_srv.Base.{
  ℕ, ◌≡◌, ◌≢◌, refl, sym, ap, ◌∙◌, subst, Bool, true, none, some, List, [], ◌∷◌, ◌++◌, arith, ok,
  Result, find, find_sound, ◌==◌, ==→eq, Bool-cases, Option-cases, inl, inr,
}
use vangers_srv.Base.Exec
use vangers_srv.Base.Exec.{Exec, continue, lift, require, expect, check, pure, ◌>>=◌, ◌>>◌}
use vangers_srv.Base.Returns.{continue-ok, expect-ok, require-ok, moved}
use vangers_srv.Protocol.{Packet, new, create_answer}
use vangers_srv.Protocol.Actions.{Action}
use vangers_srv.Player.{Player, World, gaming}
use vangers_srv.Game.{Game, get_player, set_player, place_player}
use vangers_srv.Game.Players.{get_player_client, get_player-set_player, get_player-set_player_other}
use vangers_srv.Server.Errors.{SetWorldError, player_not_bind}
use vangers_srv.Server.Callback.TotalPlayersDataQuery.{total_players_data_packet}
use vangers_srv.Server.Callback.SetWorld.Snapshot.{snapshot, snapshot_packets}
use vangers_srv.Server.Callback.SetWorld.{
  enter, status_packet, Entry, entry, place, set_world_in_game,
}

-- The world of an entry.
record IsWorld (world_id y_size : ℕ) (g t : Game) (w : World) : Type 0 where
  of_id : w.id ≡ world_id
  of_size : w.y_size ≡ y_size
  stands : find (λ v. v.id == world_id) t.worlds ≡ some w
  same : t ≡ record g { worlds = t.worlds }

find-append_none :
    (p : World → Bool) (ws : List World) (w : World)
    → find p ws ≡ none
    → p w ≡ true
    → find p (ws ++ w ∷ []) ≡ some w
find-append_none p [] w h e = ground arith
find-append_none p (x ∷ ws) w h e = ground (arith, find-append_none p ws w)

enter-IsWorld :
    (world_id y_size : ℕ) (g t : Game) (r : World × ℕ)
    → enter world_id y_size g ≡ (ok r, t)
    → IsWorld world_id y_size g t r.0
unfolding enter
enter-IsWorld world_id y_size g t r h =
    elim (Option-cases (find (λ w. w.id == world_id) g.worlds)) [
      | inl e ↦
          moved (λ x y. IsWorld world_id y_size g y x.0) (fresh, 1) r _ t (rw (e, enter) at h)
            (record {
              of_id = refl;
              of_size = refl;
              stands = find-append_none (λ v. v.id == world_id) g.worlds fresh e (ground arith);
              same = refl;
            })
      | inr (w, e) ↦ elim (Bool-cases (w.y_size == y_size)) [
        | inl u ↦
            moved (λ x y. IsWorld world_id y_size g y x.0) (w, 0) r g t (rw (e, enter, u) at h)
              (record {
                of_id = ==→eq w.id world_id (find_sound (λ v. v.id == world_id) g.worlds w e);
                of_size = ==→eq w.y_size y_size u;
                stands = e;
                same = refl;
              })
        | inr u ↦ absurd (let bad = rw (e, enter, u) at h in cc)
      ]
    ]
  where
    fresh : World
    fresh = record { id = world_id; y_size = y_size }

-- The game where the player of the client is put into the world.
abbrev pub with_player : ℕ → World → Player → Game → Game
with_player client_id w p g = record g {
  players = set_player client_id (record p { world = some w; status = gaming }) g.players;
}

place-ok :
    (client_id : ℕ) (w : World) (p : Player) (g t : Game) (started : Bool)
    → get_player client_id g.players ≡ some p
    → find (λ v. v.id == w.id) g.worlds ≡ some w
    → place {E = SetWorldError} client_id w g ≡ (ok started, t)
    → t ≡ with_player client_id w p g
unfolding place place_player
place-ok client_id w p g t started e f h =
    sym (ap (λ (z : Result SetWorldError Bool × Game). z.1) (rw (place_player, e, f) at h))

-- The packets that an entry shows its player: the beginning, the list of the players, those of the
-- objects, and the end.
pub record Shows (world_id : ℕ) (g : Game) (objects : List Packet) (e : Entry) : Type 0 where
  pub begin : Packet
  pub players : Packet
  pub last : Packet
  pub begins : new {E = SetWorldError} Action.world_snapshot_begin (world_id ∷ []) ≡ ok begin
  pub lists : total_players_data_packet {E = SetWorldError} g ≡ ok players
  pub ends : new {E = SetWorldError} Action.world_snapshot_end (world_id ∷ []) ≡ ok last
  pub in_order : e.shown ≡ begin ∷ players ∷ (objects ++ last ∷ [])

entry-Shows :
    (packet : Packet) (bind_id world_id world_status : ℕ) (objects : List Packet) (started : Bool)
    (g t : Game) (e : Entry)
    → entry {E = SetWorldError} packet bind_id world_id world_status objects started g ≡ (ok e, t)
    → (t ≡ g) × Shows world_id g objects e
unfolding entry
entry-Shows packet bind_id world_id world_status objects started g t e h =
    let (status, e0, h0) = continue-ok _ g t e (status_packet started bind_id) h in
    let (told, e1, h1) =
      continue-ok _ g t e (new Action.players_world (bind_id ∷ world_id ∷ [])) h0 in
    let (answered, e2, h2) =
      expect-ok _ g t e (create_answer packet (world_id ∷ world_status ∷ [])) h1 in
    let (begin, e3, h3) =
      continue-ok _ g t e (new Action.world_snapshot_begin (world_id ∷ [])) h2 in
    let (players, e4, h4) = continue-ok _ g t e (total_players_data_packet g) h3 in
    let (last, e5, h5) = continue-ok _ g t e (new Action.world_snapshot_end (world_id ∷ [])) h4 in
    moved (λ x y. (y ≡ g) × Shows world_id g objects x)
      (record {
        status = status;
        world = told;
        answer = answered;
        shown = begin ∷ players ∷ (objects ++ last ∷ []);
      })
      e g t h5
      (
        refl,
        record {
          begin = begin;
          players = players;
          last = last;
          begins = e3;
          lists = e4;
          ends = e5;
          in_order = refl;
        },
      )

-- What an entry comes to.
pub record Entered (client_id world_id y_size : ℕ) (g t : Game) (e : Entry) : Type 0 where
  pub player : Player
  pub bind_id : ℕ
  pub world : World
  pub objects : List Packet
  pub found : get_player client_id g.players ≡ some player
  pub bound : player.bind ≡ some bind_id
  pub of_id : world.id ≡ world_id
  pub of_size : world.y_size ≡ y_size
  pub placed :
      get_player client_id t.players ≡ some (record player { world = some world; status = gaming })
  pub others : (d : ℕ) → client_id ≢ d → get_player d t.players ≡ get_player d g.players
  pub kept : t.vanjects ≡ g.vanjects
  pub snapped :
      snapshot_packets {E = SetWorldError} (snapshot world_id bind_id g.vanjects) ≡ ok objects
  pub shows : Shows world_id t objects e

-- `set_world_in_game` behind the choice of the world.
abbrev inside : ℕ → Packet → ℕ → World → ℕ → Exec Game SetWorldError Entry
inside client_id packet world_id w world_status = do
  found ← Exec.gets λ (g : Game). get_player client_id g.players
  player ← expect found
  bind_id ← require player.bind (player_not_bind client_id)
  vanjects ← Exec.gets λ (g : Game). g.vanjects
  objects ← lift (snapshot_packets (snapshot world_id bind_id vanjects))
  started ← place client_id w
  entry packet bind_id world_id world_status objects started

inside-Entered :
    (client_id world_id y_size : ℕ) (packet : Packet) (world_status : ℕ) (w : World) (g m t : Game)
    (e : Entry)
    → IsWorld world_id y_size g m w
    → inside client_id packet world_id w world_status m ≡ (ok e, t)
    → Entered client_id world_id y_size g t e
inside-Entered client_id world_id y_size packet world_status w g m t e is_world h =
    let (p, e1, h1) = expect-ok _ m t e (get_player client_id m.players) h in
    let (bind_id, e2, h2) = require-ok _ m t e p.bind (player_not_bind client_id) h1 in
    let (objects, e3, h3) =
      continue-ok _ m t e (snapshot_packets (snapshot world_id bind_id m.vanjects)) h2 in
    let put : Exec Game SetWorldError Bool = place client_id w in
    let (started, e4, h4) = continue-ok _ (put m).1 t e (put m).0 h3 in
    let stands = ap (λ n. find (λ v. v.id == n) m.worlds) is_world.of_id ∙ is_world.stands in
    let written =
      place-ok client_id w p m (put m).1 started e1 stands (ap (λ r. (r, (put m).1)) e4) in
    let (same, shown) =
      entry-Shows packet bind_id world_id world_status objects started (put m).1 t e h4 in
    let total : t ≡ with_player client_id w p m = same ∙ written in
    let client = get_player_client client_id m.players p e1 in
    record {
      player = p;
      bind_id = bind_id;
      world = w;
      objects = objects;
      found = sym (ap (λ (x : Game). get_player client_id x.players) is_world.same) ∙ e1;
      bound = e2;
      of_id = is_world.of_id;
      of_size = is_world.of_size;
      placed =
          ap (λ (x : Game). get_player client_id x.players) total
          ∙ get_player-set_player client_id _ m.players p client e1;
      others = λ d n.
          ap (λ (x : Game). get_player d x.players) total
          ∙ get_player-set_player_other client_id d _ m.players client n
          ∙ ap (λ (x : Game). get_player d x.players) is_world.same;
      kept = ap (λ (x : Game). x.vanjects) total ∙ ap (λ (x : Game). x.vanjects) is_world.same;
      snapped =
          ap (λ (x : Game). snapshot_packets (snapshot world_id bind_id x.vanjects))
            (sym is_world.same)
          ∙ e3;
      shows = subst (λ x. Shows world_id x objects e) (sym same) shown;
    }

-- When an entry into a world returns: the player was bound; it stands in a world of the id and the size
-- that it asked for, and plays; the other players and all objects are as they were; and it is shown
-- the beginning, the list of the players with it in that world, the packets of the objects of the
-- snapshot, and the end.
pub set_world_in_game-Entered :
    (client_id world_id y_size : ℕ) (packet : Packet) (g t : Game) (e : Entry)
    → set_world_in_game client_id packet world_id y_size g ≡ (ok e, t)
    → Entered client_id world_id y_size g t e
unfolding set_world_in_game
set_world_in_game-Entered client_id world_id y_size packet g t e h =
    let (r, e0, h0) = continue-ok _ (enter world_id y_size g).1 t e (enter world_id y_size g).0 h in
    let entered =
      enter-IsWorld world_id y_size g (enter world_id y_size g).1 r
        (ap (λ x. (x, (enter world_id y_size g).1)) e0) in
    inside-Entered client_id world_id y_size packet r.1 r.0 g (enter world_id y_size g).1 t e
      entered h0
