-- ===== src/Protocol/Tests.antt =====
-- The client on a small network: one peer that answers with what is left of a stream, and a clock
-- that every reading moves on by a millisecond.
use pa2bridge.Base.{ℕ, ◌+◌, ◌≡◌, refl, true, none, some, List, [], ◌∷◌, ◌++◌, inl}
use pa2bridge.Base.Text.{Text, codes}
use pa2bridge.Base.Split.{join}
use pa2bridge.Controller.Action.{ok, ParamPath}
use pa2bridge.Protocol.Frame.{
  validate_atom, validate_parts, encode_path, decode_path, until, parse_value_response,
}
use pa2bridge.Protocol.Session.{SocketResult, Network, Session}
use pa2bridge.Protocol.Client.{set_frame, get, set, set_starting_before, connect}
use pa2bridge.Protocol.Triple.{Post}
use pa2bridge.Protocol.Closing.{IsOpen}
use pa2bridge.Protocol.Failure.{Refused, commands-closed_on_failure}
use pa2bridge.Protocol.Paths.{decode_path-encode_path}
use pa2bridge.Protocol.Framing.{get_reply, set_frame-one_line, parse_value_response-get_reply}
use pa2bridge.Protocol.Connecting.{LoggedIn, NotLoggedIn, connect-LoggedIn}
use pa2bridge.Protocol.Sending.{Sent, SentOrNot, set_starting_before-sends}

record Peer : Type 0 where
  clock : ℕ
  stream : List ℕ

abbrev network : Network Peer
network = record {
  monotonic = λ w. (w.clock, record w { clock = w.clock + 1 });
  create_connection = λ t w. (SocketResult.done tt, w);
  peer_address = λ w. (some (codes "10.0.0.2"), w);
  sendall = λ bytes w. (SocketResult.done tt, w);
  recv = λ t w. (SocketResult.done w.stream, record w { stream = [] });
  shutdown = λ w. w;
  close = λ w. (SocketResult.failed, w);
  encode = λ t. some t;
  decode = λ bytes. some bytes;
}

abbrev session : Session Peer
session = record {
  world = record { clock = 0; stream = codes "get \"\\\\Node\\AT\" \"x\"" ++ 10 ∷ [] };
  is_open = true;
  buffer = [];
  pending_set_echoes = [];
  credentials = some (codes "administrator", codes "administrator");
  connection_generation = 1;
  peer = none;
  sent = [];
}

abbrev node : ParamPath
node = codes "Node" ∷ codes "AT" ∷ []

abbrev encoded_node : Text
encoded_node = codes "\\\\Node\\AT"

decode_path-encode_path_example : decode_path encoded_node ≡ ok node
unfolding encode_path validate_parts validate_atom join
decode_path-encode_path_example = decode_path-encode_path node refl

set_frame-one_line_example :
    until 10 (set_frame encoded_node (codes "On") ++ 10 ∷ [])
    ≡ some (set_frame encoded_node (codes "On"), [])
unfolding encode_path validate_parts validate_atom join
set_frame-one_line_example = set_frame-one_line node (codes "On") {accepted = codes "On"} refl refl

parse_value_response-get_reply_example :
    parse_value_response (get_reply encoded_node (codes "x"))
    ≡ ok (record { kind = codes "get"; path = node; value = codes "x" })
unfolding encode_path validate_parts validate_atom join
parse_value_response-get_reply_example =
    parse_value_response-get_reply node (codes "x") refl refl refl

commands-closed_on_failure_example :
    Post
      (λ _ t. IsOpen t)
      Refused
      (get network 3000 node none session).0
      (get network 3000 node none session).1
    × Post
        (λ _ t. IsOpen t)
        Refused
        (set network 3000 node (codes "On") none session).0
        (set network 3000 node (codes "On") none session).1
    × Post
        (λ _ t. IsOpen t)
        Refused
        (set_starting_before network 3000 node (codes "On") 10 20 session).0
        (set_starting_before network 3000 node (codes "On") 10 20 session).1
commands-closed_on_failure_example =
    commands-closed_on_failure network 3000 node (codes "On") none 10 20 session (inl refl)

set_starting_before-sends_example :
    Post
      (λ _ t. Sent (set_frame encoded_node (codes "On") ∷ []) t)
      (SentOrNot (set_frame encoded_node (codes "On")) [])
      (set_starting_before network 3000 node (codes "On") 100 200 session).0
      (set_starting_before network 3000 node (codes "On") 100 200 session).1
unfolding encode_path validate_parts validate_atom join
set_starting_before-sends_example =
    set_starting_before-sends network 3000 node (codes "On") 100 200 session {accepted = codes "On"}
      refl refl

connect-LoggedIn_example :
    Post
      (λ _ t. LoggedIn (codes "a", codes "b") 1 t)
      (NotLoggedIn 1)
      (connect network 3000 (codes "a") (codes "b") none session).0
      (connect network 3000 (codes "a") (codes "b") none session).1
connect-LoggedIn_example = connect-LoggedIn network 3000 (codes "a") (codes "b") none session
