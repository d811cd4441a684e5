-- ===== src/Tests/HandshakeRuns.antt =====
-- The theorem on the handshake at a host's three messages.
use loom_client.Common.{ℕ, pos, to_i64, ◌≡◌, refl, arith, some, List, [], ◌∷◌, take, drop}
use loom_client.Cbor.{Fields, integer, text, no_fields, field}
use loom_client.Cbor.Encode.{
  encode_canonical, put_head, push_be, sort_entries, insert_entry, lex_lt, concat_entries,
}
use loom_client.Control
use loom_client.Control.{encode_frame, envelope}
use loom_client.Session.Config.{find_int, find_text, parse_config}
use loom_client.Session.Ops.{
  streaming, send_control, established, media_expected, hello_body, single,
}
use loom_client.Session.Order.{connect}
use loom_client.Session.Handshake.{Fits, seen, feed_pieces, handshake, feed_pieces_streams}
use loom_client.Tests.SessionRuns.{quest}

abbrev welcome_body : Fields
welcome_body =
    field (integer (pos 0)) (integer (pos 1)) (field (integer (pos 1)) (text (0x68 ∷ [])) no_fields)

abbrev config_body : Fields
config_body =
    field (integer (pos 0)) (integer (pos 3))
      (field (integer (pos 2)) (integer (pos 1920)) no_fields)

welcome-Fits : Fits Control.welcome welcome_body
unfolding encode_canonical put_head push_be sort_entries insert_entry lex_lt concat_entries
welcome-Fits = record { representable = ground arith; within = omega arith }

config-Fits : Fits Control.config config_body
unfolding encode_canonical put_head push_be sort_entries insert_entry lex_lt concat_entries
config-Fits = record { representable = ground arith; within = omega arith }

start-Fits : Fits Control.start no_fields
unfolding encode_canonical put_head push_be sort_entries insert_entry lex_lt concat_entries
start-Fits = record { representable = ground arith; within = omega arith }

-- The bytes of the host, cut inside the length of the first message.
abbrev pieces : List (List ℕ)
pieces =
    take 2 (handshake welcome_body config_body no_fields)
    ∷ drop 2 (handshake welcome_body config_body no_fields)
    ∷ []

feed_pieces_streams_example :
    let s = feed_pieces pieces (pos 9) (connect quest) in
    let cfg = parse_config (seen 7 config_body) in
    let ack = single (integer (to_i64 cfg.generation)) in
    (s.state ≡ streaming)
    × (s.out
        ≡ send_control (encode_frame Control.hello (hello_body quest))
          ∷ established
          ∷ send_control (encode_frame Control.config_ack ack)
          ∷ media_expected
          ∷ [])
    × (s.host_name ≡ find_text (seen 4 welcome_body) (pos 1))
    × (s.config ≡ some cfg)
    × (s.rx ≡ [])
unfolding find_int Control.filter_known loom_client.Cbor.Canon.members lex_lt encode_canonical
    put_head Control.contains Control.keys_upto encode_frame concat_entries sort_entries
    insert_entry push_be
feed_pieces_streams_example =
    feed_pieces_streams quest welcome_body config_body no_fields
      (take 2 (handshake welcome_body config_body no_fields))
      (drop 2 (handshake welcome_body config_body no_fields) ∷ []) (pos 9) welcome-Fits config-Fits
      start-Fits refl refl
