-- ===== src/Server/Callback/CreateObject/Inserted.antt =====
-- A created object is in the sender's game when the handler is done (callback/create_object.rs).
use vangers_srv.Base.{
  not, ℕ, ◌≡◌, refl, ap, ◌∙◌, inl, inr, Bool, true, false, Option, none, some, List, arith, ◌==◌,
  lookup, insert, is_some, Result, ok, err, panic, Result-cases, Option-cases,
}
use vangers_srv.Base.Exec
use vangers_srv.Server.Notices.{notify-ok, notify_world-ok, notify-games, notify_world-games}
use vangers_srv.Protocol.{Packet}
use vangers_srv.Vanject.{Vanject, create_from_slice}
use vangers_srv.Player.{Player, set_body}
use vangers_srv.Game.{Game, get_player, set_player}
use vangers_srv.Game.Players.{get_player_client, set_player_stays}
use vangers_srv.Server.Callback.CreateObject.Approval.{approve}
use vangers_srv.Server.Callback.CreateObject.Created.{
  Creates, approve-player, created, create_in_game-vanjects,
}
use vangers_srv.Server.{Server, Channel, reliable, find_game, in_game}
use vangers_srv.Server.Errors.{OnUpdateError, CreateObjectError, player_not_found, complete}
use vangers_srv.Server.Lending.{in_game_found, find_game_player}
use vangers_srv.Server.Callback.UpdateObject.{owned_by, tell}
use vangers_srv.Server.Callback.CreateObject.{
  Creation, create, announce, move_vanger, create_in_game, tell_created, insert_object, finish,
  create_object,
}

set_body_client :
    {E : Type 0} (p : Player) (bytes : List ℕ) (q : Player) (b : Bool)
    → set_body {E = E} p bytes ≡ ok (q, b)
    → q.client_id ≡ p.client_id
unfolding set_body
set_body_client p bytes q b h = ground arith

-- The player stays in the game, whatever comes of the packet.
move_vanger-player :
    (E : Type 0) (client_id : ℕ) (player : Player) (v : Vanject) (g : Game)
    → is_some (get_player client_id g.players) ≡ true
    → player.client_id ≡ client_id
    → is_some (get_player client_id (move_vanger {E = E} client_id player v g).1.players) ≡ true
unfolding move_vanger
move_vanger-player E client_id player v g found same =
    let moved : Player = record player { pos = v.pos } in
    let first = set_player_stays client_id moved g.players same found in
    elim (Result-cases (set_body {E = E} moved v.body)) [
      | inl ((q, b), e) ↦
          let second =
            set_player_stays client_id q (set_player client_id moved g.players)
              (set_body_client {E = E} moved v.body q b e ∙ same) first in
          ground arith
      | inr (inl (d, e)) ↦ rw e first
      | inr (inr e) ↦ rw e first
    ]

announce-player :
    (E : Type 0) (client_id : ℕ) (player : Player) (v : Vanject) (g : Game)
    → is_some (get_player client_id g.players) ≡ true
    → player.client_id ≡ client_id
    → is_some (get_player client_id (announce {E = E} client_id player v g).1.players) ≡ true
unfolding announce
announce-player E client_id player v g found same =
    ground (arith, move_vanger-player E client_id player v g found same)

create_in_game-player :
    (client_id : ℕ) (v : Vanject) (g : Game)
    → is_some (get_player client_id g.players) ≡ true
    → is_some (get_player client_id (create_in_game client_id v g).1.players) ≡ true
unfolding create_in_game
create_in_game-player client_id v g found = elim (Option-cases (lookup v.id g.vanjects)) [
  | inr (w, e) ↦ ground arith
  | inl e ↦ elim (Result-cases (approve client_id v g)) [
    | inl ((b, p), e') ↦
        rw (e, e')
          (announce-player CreateObjectError client_id p (owned_by b v) g found
            (get_player_client client_id g.players p (approve-player client_id v g b p e').1))
    | inr (inl (d, e')) ↦ rw (e, e') found
    | inr (inr e') ↦ rw (e, e') found
  ]
]

tell_games :
    (E : Type 0) (c : Channel) (client_id : ℕ) (told : Packet × (Bool × ℕ)) (s : Server)
    → ((tell {E = E} c client_id told s).0 ≡ ok tt)
      × ((tell {E = E} c client_id told s).1.games ≡ s.games)
unfolding tell
tell_games E c client_id (p, (true, world)) s = (
  notify_world-ok E c client_id world p false s,
  notify_world-games E c client_id world p false s,
)
tell_games E c client_id (p, (false, world)) s = (
  notify-ok E c client_id p (λ id. not (id == client_id)) s,
  notify-games E c client_id p (λ id. not (id == client_id)) s,
)

tell_created_games :
    (E : Type 0) (client_id : ℕ) (told : Option (Packet × (Bool × ℕ))) (s : Server)
    → ((tell_created {E = E} client_id told s).0 ≡ ok tt)
      × ((tell_created {E = E} client_id told s).1.games ≡ s.games)
unfolding tell_created
tell_created_games E client_id none s = (refl, refl)
tell_created_games E client_id (some told) s = tell_games E reliable client_id told s

abbrev pub with_object : Game → Vanject → Game
with_object g v = record g { vanjects = insert v.id v g.vanjects }

finish_inserted :
    (E : Type 0) (client_id : ℕ) (w : Vanject) (told : Option (Packet × (Bool × ℕ))) (s : Server)
    (k : ℕ) (g : Game)
    → find_game client_id s.games ≡ some (k, g)
    → ((finish {E = E} client_id (create w told) s).0 ≡ ok tt)
      × (find_game client_id (finish {E = E} client_id (create w told) s).1.games
          ≡ some (k, with_object g w))
unfolding finish insert_object
finish_inserted E client_id w told s k g h =
    let (fine, same) = tell_created_games E client_id told s in
    let s' = (tell_created {E = E} client_id told s).1 in
    let h' : find_game client_id s'.games ≡ some (k, g) = ap (find_game client_id) same ∙ h in
    let (done, there) =
      in_game_found {E = E} client_id panic (Exec.update λ (g : Game). with_object g w) s' k g h'
        (find_game_player client_id s.games k g h) in
    rw fine (done, there)

-- When the request parses as an object, the client is in a game, and the game accepts a new
-- object, the handler completes: then the client's game, still under its key, has the object under
-- its id, owned by the player, and otherwise the objects that it had; the id was free, the player
-- bound, and no paired item stored.
pub inserted :
    (client_id : ℕ) (packet : Packet) (s : Server) (k : ℕ) (g : Game) (v w : Vanject)
    (told : Option (Packet × (Bool × ℕ)))
    → create_from_slice packet.bytes ≡ ok v
    → find_game client_id s.games ≡ some (k, g)
    → (create_in_game client_id v g).0 ≡ ok (create w told)
    → ((create_object client_id packet s).0 ≡ ok complete)
      × ((g' : Game) × (find_game client_id (create_object client_id packet s).1.games
            ≡ some (k, g'))
          × ((bind_id : ℕ) × Creates client_id v g bind_id
              × (g'.vanjects ≡ insert v.id (owned_by bind_id v) g.vanjects)))
unfolding create_object
inserted client_id packet s k g v w told parsed h made =
    let m = create_in_game client_id v in
    let missing : Result CreateObjectError Creation = err (player_not_found client_id) in
    let (fine, there) =
      in_game_found client_id missing m s k g h
        (create_in_game-player client_id v g (find_game_player client_id s.games k g h)) in
    let s' = (in_game client_id missing m s).1 in
    let (done, final) = finish_inserted OnUpdateError client_id w told s' k (m g).1 there in
    let (bind_id, creates, owned) = created client_id v w g told made in
    rw (parsed, fine ∙ made, done)
      (
        refl,
        (
          with_object (m g).1 w,
          final,
          (
            bind_id,
            creates,
            ap (insert w.id w) (create_in_game-vanjects client_id v g)
                ∙ ap (λ x. insert x.id x g.vanjects) owned,
          ),
        ),
      )
