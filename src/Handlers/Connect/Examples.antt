-- ===== src/Handlers/Connect/Examples.antt =====
-- CONNECT of a client with a new, clean session.
use aedes.Common.{text_eq, refl, ◌≡◌, [], none, some, codes, true, false, not, ◌&&◌, ltb, length}
use aedes.Run.{done, run_series}
use aedes.Packet.{Cmd, Packet, Sub, blank}
use aedes.Sample.{sample_host, connecting_client, world_of}
use aedes.Handlers.Connect.{
  ConnectArg, return_code_of, fetch_subs, restore_subs, init, handle_connect,
}
use aedes.Handlers.Connect.Ready.{IsWelcoming}
use aedes.Handlers.Connect.Success.{handle_connect-connected}
use aedes.Session.Sample.{new_client}
use aedes.Dict.{get, slot, is_inherited}
use aedes.Handlers.Connect.Acceptance.{IsAcceptable, IsLetIn, return_code_of_iff, init-done}
use aedes.Handlers.Connect.Session.{fetch_subs-session_present}

abbrev connect_packet : Packet
connect_packet = record (blank Cmd.connect) {
  client_id = some (codes "c");
  protocol_version = 4;
  clean = true;
  keepalive = 60;
}

abbrev kept_session : Packet
kept_session = record connect_packet { clean = false }

abbrev start : ConnectArg
start = record { return_code = 0; session_present = false; subs = none }

fetch_subs-session_present_example : false ≡ (not false && ltb 0 (length {A = Sub} []))
unfolding fetch_subs restore_subs run_series
fetch_subs-session_present_example =
    fetch_subs-session_present sample_host 0 kept_session start
      (record start { session_present = false }) [] (world_of connecting_client) refl (λ o. refl)
      refl

let_in : (init sample_host 0 connect_packet (world_of connecting_client)).0 ≡ done tt
unfolding init aedes.Dict.slot aedes.Write.write aedes.Broker.Publishing.publish
let_in = refl

init-done_example : IsAcceptable 23 0 connect_packet × IsLetIn sample_host 0 connect_packet
init-done_example = init-done sample_host 0 connect_packet (world_of connecting_client) let_in

sample-IsWelcoming : IsWelcoming sample_host 0 connect_packet
sample-IsWelcoming = record {
  pre_connects = λ o. refl;
  authenticates = λ o. refl;
  cleans = λ id o. refl;
  deletes_will = λ id o e. cc;
  takes = λ q o. refl;
  has_nothing = λ id o. refl;
  same_clients = λ w. refl;
  same_broker = λ w. refl;
}

handle_connect-connected_example :
    let (result, w') = handle_connect sample_host 0 connect_packet (world_of (new_client 7)) in
    (result ≡ done tt)
    × ((w'.clients 0).connected ≡ true)
    × (get (codes "c") w'.broker.clients ≡ some 0)
unfolding slot get text_eq is_inherited
handle_connect-connected_example =
    handle_connect-connected sample_host 0 connect_packet sample-IsWelcoming b'c' [] refl refl refl
      (world_of (new_client 7))
      ((return_code_of_iff 23 0 connect_packet).0 (unfold return_code_of in refl)) refl refl refl
