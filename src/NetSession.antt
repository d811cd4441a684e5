-- ===== src/NetSession.antt =====
-- quest/src/net_session.hpp, quest/src/net_session.cpp: the pump that drives the session and the video
-- receivers from the transport's events. The transport gives the events of a pump as a list; `sent`
-- records the calls of `transport_.send_control`. What a pump logs is left out.
pub mod Streams
pub mod Linked
use loom_client.Common.{
  ℕ, zero, suc, ◌+◌, ◌*◌, ◌/◌, ◌%◌, ◌^◌, bit_and, bit_or, ℤ, pos, negsuc, Bool, true, false, not,
  ◌&&◌, Option, none, some, List, [], ◌∷◌, ◌++◌, length, drop, ◌==◌, if◌then◌else◌,
}
use loom_client.Cbor.{Fields, integer, no_fields, field}
use loom_client.Control
use loom_client.Control.{encode_frame}
use loom_client.Session.Config.{SessionConfig, StreamConfig}
use loom_client.Session.Ops.{
  Session, HelloParams, Action, StatsInput, send_control, established, media_expected, fatal_action,
  closed_action, new_session, poll, on_event, on_control_bytes, on_tick, send_viewport,
  encode_stats,
}
use loom_client.Session.Ops
use loom_client.Transport.{TransportEvent, connected, control_bytes, datagram, closed}
use loom_client.VideoReceiver.{VideoReceiver, new_receiver, feed_datagram}

abbrev pub feature_multi_display : ℕ
feature_multi_display = 2

pub record NetSession : Type 0 where
  pub session : Session
  pub receivers : List (ℕ × VideoReceiver)
  pub extra_receivers_built : Bool
  pub streaming : Bool
  pub just_started_streaming : Bool
  pub config_changed : Bool
  pub closed_flag : Bool
  pub fatal_flag : Bool
  pub requested_viewport : ℕ
  pub sent_viewport : ℕ
  pub sent : List (List ℕ)

unfoldable pub idr_request_frame : ℕ → ℕ → List ℕ
idr_request_frame last_good stream_id = encode_frame Control.idr_request (
    field (integer (pos 0)) (integer (pos last_good)) (
      if stream_id == 0
      then no_fields
      else field (integer (pos 1)) (integer (pos stream_id)) no_fields))

abbrev pub add_receiver : ℕ → List (ℕ × VideoReceiver) → List (ℕ × VideoReceiver)
add_receiver stream_id rs = rs ++ (stream_id, new_receiver true stream_id) ∷ []

unfoldable pub new_net_session : HelloParams → NetSession
new_net_session params = record {
  session = new_session params;
  receivers = add_receiver 0 [];
  extra_receivers_built = false;
  streaming = false;
  just_started_streaming = false;
  config_changed = false;
  closed_flag = false;
  fatal_flag = false;
  requested_viewport = 0;
  sent_viewport = 0;
  sent = [];
}

unfoldable pub add_receivers :
    List StreamConfig → List (ℕ × VideoReceiver) → List (ℕ × VideoReceiver)
add_receivers [] rs = rs
add_receivers (c ∷ cs) rs = add_receivers cs (add_receiver c.stream_id rs)

abbrev pub build_for : Option SessionConfig → NetSession → NetSession
build_for none s = s
build_for (some cfg) s =
    let built = record s { extra_receivers_built = true } in
    if bit_and s.session.active_features feature_multi_display == 0
    then built
    else record built { receivers = add_receivers cfg.extra_streams s.receivers }

unfoldable pub build_extra_receivers : NetSession → NetSession
unfolding add_receivers
build_extra_receivers s = if s.extra_receivers_built then s else build_for s.session.config s

-- `now_us / 1000`, cut towards zero.
abbrev minus : ℕ → ℤ
minus zero = pos 0
minus (suc n) = negsuc n

abbrev pub to_ms : ℤ → ℤ
to_ms (pos n) = pos (n / 1000)
to_ms (negsuc n) = minus (suc n / 1000)

-- The frames of the IDR requests that a receiver has sent since its log had `n` entries.
abbrev pub idr_frames : ℕ → List (ℤ × ℕ) → List (List ℕ)
idr_frames stream_id [] = []
idr_frames stream_id ((t, last_good) ∷ cs) =
    idr_request_frame last_good stream_id ∷ idr_frames stream_id cs

unfoldable pub feed_all :
    List ℕ → ℤ → List (ℕ × VideoReceiver) → List (ℕ × VideoReceiver) × List (List ℕ)
unfolding feed_datagram
feed_all bytes now_ms [] = ([], [])
feed_all bytes now_ms ((sid, r) ∷ rs) =
    let r1 = feed_datagram bytes now_ms r in
    let (rest, frames) = feed_all bytes now_ms rs in
    ((sid, r1) ∷ rest, idr_frames sid (drop (length r.requested) r1.requested) ++ frames)

abbrev pub feed_receivers : List ℕ → ℤ → NetSession → NetSession
feed_receivers bytes now_ms s =
    let (rs, frames) = feed_all bytes now_ms s.receivers in
    record s { receivers = rs; sent = s.sent ++ frames }

unfoldable pub handle_transport : TransportEvent → ℤ → NetSession → NetSession
unfolding build_extra_receivers feed_all
handle_transport connected now_us s = record s { session = on_event Ops.connected s.session }
handle_transport (control_bytes bytes) now_us s =
    build_extra_receivers (record s { session = on_control_bytes bytes now_us s.session })
handle_transport (datagram bytes) now_us s = feed_receivers bytes (to_ms now_us) s
handle_transport (closed code) now_us s = record s { closed_flag = true }

unfoldable pub drain_events : List TransportEvent → ℤ → NetSession → NetSession
unfolding handle_transport
drain_events [] now_us s = s
drain_events (e ∷ es) now_us s = drain_events es now_us (handle_transport e now_us s)

-- The pending VIEWPORT: the size is sent if the session takes it.
abbrev pub sent_if : Bool → ℕ → ℕ → ℕ
sent_if true req old = req
sent_if false req old = old

unfoldable pub emit_viewport : ℤ → NetSession → NetSession
emit_viewport now_us s =
    let req = s.requested_viewport in
    let (session, taken) =
      send_viewport (req / 2 ^ 32 % 2 ^ 32) (bit_and req 0xffff_ffff) now_us s.session in
    if not (req == 0) && not (req == s.sent_viewport)
    then record s { session = session; sent_viewport = sent_if taken req s.sent_viewport }
    else s

unfoldable pub handle_action : Action → NetSession → NetSession
handle_action (send_control bytes) s = record s { sent = s.sent ++ bytes ∷ [] }
handle_action established s = s
handle_action media_expected s = record s { streaming = true; just_started_streaming = true }
handle_action Action.config_changed s = record s { config_changed = true }
handle_action (fatal_action code) s = record s { fatal_flag = true }
handle_action closed_action s = record s { closed_flag = true }

unfoldable pub handle_actions : List Action → NetSession → NetSession
unfolding handle_action
handle_actions [] s = s
handle_actions (a ∷ rest) s = handle_actions rest (handle_action a s)

abbrev pub poll_actions : NetSession → NetSession
poll_actions s =
    let (actions, session) = poll s.session in
    handle_actions actions (record s { session = session })

abbrev pub tick : ℤ → NetSession → NetSession
tick now_us s = record s { session = on_tick now_us s.session }

abbrev pub clear_flags : NetSession → NetSession
clear_flags s = record s { just_started_streaming = false; config_changed = false }

unfoldable pub pump : List TransportEvent → ℤ → NetSession → NetSession
unfolding drain_events emit_viewport handle_actions
pump events now_us s =
    poll_actions (emit_viewport now_us (tick now_us (drain_events events now_us (clear_flags s))))

unfoldable pub request_viewport : ℕ → ℕ → NetSession → NetSession
request_viewport width height s = record s { requested_viewport = bit_or (width * 2 ^ 32) height }

abbrev pub finished : NetSession → Bool
finished s = if s.closed_flag then true else s.fatal_flag

unfoldable pub receiver : ℕ → List (ℕ × VideoReceiver) → Option VideoReceiver
receiver stream_id [] = none
receiver stream_id ((sid, r) ∷ rs) = if sid == stream_id then some r else receiver stream_id rs

unfoldable pub stream_ids : List (ℕ × VideoReceiver) → List ℕ
stream_ids [] = []
stream_ids ((sid, r) ∷ rs) = sid ∷ stream_ids rs

unfoldable pub send_stats : StatsInput → NetSession → NetSession
send_stats i s = record s { sent = s.sent ++ encode_stats i ∷ [] }
