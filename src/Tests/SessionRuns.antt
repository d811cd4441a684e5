-- ===== src/Tests/SessionRuns.antt =====
-- The theorems on core/src/session.cpp at concrete inputs.
use loom_client.Common.{List, some, ◌<◌, pos, ◌≡◌, arith, inl, [], ◌∷◌, length}
use loom_client.Session.Order.{
  Input, bytes, tick, user_ends, viewport, feed_inputs, connect, feed_inputs-replay,
}
use loom_client.Session.Phases.{idle, phase, replay}
use loom_client.Session.Ops.{
  Session, HelloParams, new_session, on_event, connected, on_control_bytes,
}
use loom_client.Session.Stream.{Unfinished, on_control_bytes-append, on_control_bytes-Unfinished}

abbrev pub quest : HelloParams
quest = record {
  client_name = 0x71 ∷ [];
  codecs = 1 ∷ [];
  max_width = 1920;
  max_height = 1080;
  max_refresh = 72;
  features = 1;
}

abbrev greeting : Session
greeting = on_event connected (new_session quest)

-- [0x02, {0: 1}], a WELCOME, cut inside its length field.
on_control_bytes-append_example :
    on_control_bytes (0 ∷ 0 ∷ 0 ∷ 5 ∷ 0x82 ∷ 0x02 ∷ 0xa1 ∷ 0x00 ∷ 0x01 ∷ []) (pos 7) greeting
    ≡ on_control_bytes
        (0 ∷ 5 ∷ 0x82 ∷ 0x02 ∷ 0xa1 ∷ 0x00 ∷ 0x01 ∷ [])
        (pos 7)
        (on_control_bytes (0 ∷ 0 ∷ []) (pos 7) greeting)
on_control_bytes-append_example =
    on_control_bytes-append (0 ∷ 0 ∷ []) (0 ∷ 5 ∷ 0x82 ∷ 0x02 ∷ 0xa1 ∷ 0x00 ∷ 0x01 ∷ []) (pos 7)
      greeting

greeting_empty : Unfinished greeting.rx
unfolding on_event new_session
greeting_empty = inl (omega arith)

on_control_bytes-Unfinished_example :
    let s = on_control_bytes (0 ∷ 0 ∷ 0 ∷ 5 ∷ 0x82 ∷ []) (pos 7) greeting in
    Unfinished s.rx × (length s.rx < 65540)
on_control_bytes-Unfinished_example =
    on_control_bytes-Unfinished (0 ∷ 0 ∷ 0 ∷ 5 ∷ 0x82 ∷ []) (pos 7) greeting greeting_empty

-- A tick, a WELCOME, a size that comes too early and the end.
abbrev evening : List Input
evening =
    tick (pos 0)
    ∷ bytes (0 ∷ 0 ∷ 0 ∷ 5 ∷ 0x82 ∷ 0x02 ∷ 0xa1 ∷ 0x00 ∷ 0x01 ∷ []) (pos 7)
    ∷ viewport 1280 720 (pos 8)
    ∷ user_ends
    ∷ []

feed_inputs-replay_example :
    let s = feed_inputs evening (connect quest) in replay s.out idle ≡ some (phase s)
feed_inputs-replay_example = feed_inputs-replay quest evening (ground arith)
