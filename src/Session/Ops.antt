-- ===== src/Session/Ops.antt =====
-- core/src/session.cpp: the session's state and its operations. `out_` is the list of the actions
-- since the last `poll`.
pub mod Messages
use loom_client.Common.{
  ℕ, zero, suc, ◌+◌, ℤ, pos, ◌-ℤ◌, ltb_ℤ, to_i64, Bool, true, false, not, ◌&&◌, Option, none, some,
  List, [], ◌++◌, length, take, drop, ltb, ◌==◌, if◌then◌else◌,
}
use loom_client.Cbor.{Fields, integer, array, floating, no_items, item, no_fields, field}
use loom_client.Control
use loom_client.Control.{encode_frame, decode_frame, frame_len, max_frame_body}
use loom_client.ClockSync
use loom_client.Errors.{protocol_violation}
unfoldable pub use Messages.*

unfoldable pub handle_frame : List ℕ → ℤ → Session → Session
handle_frame frame now_us s = handle_result (decode_frame frame) now_us s

-- The loop of `on_control_bytes` over what lies behind `off`, `b`, and what the return leaves in
-- `rx_`. A round takes 4 bytes at least, and one round more than the bytes is handed out.
unfoldable pub drain : ℕ → ℤ → List ℕ → Session → Session
drain zero now_us b s = record s { rx = b }
drain (suc fuel) now_us b s =
    let len = frame_len b in
    let handled = handle_frame (take (4 + len) b) now_us s in
    let rest = drain fuel now_us (drop (4 + len) b) handled in
    if ltb (length b) 4
    then record s { rx = b }
    else if ltb max_frame_body len
    then record (fatal protocol_violation s) { rx = [] }
    else if ltb (length b) (4 + len)
    then record s { rx = b }
    else if is_over handled.state
    then record handled { rx = [] }
    else rest

unfoldable pub on_control_bytes : List ℕ → ℤ → Session → Session
unfolding drain
on_control_bytes bytes now_us s =
    if is_over s.state
    then s
    else let rx = s.rx ++ bytes in drain (suc (length rx)) now_us rx (record s { rx = rx })

-- `state_ == Connecting || state_ == Closed || state_ == Failed`
abbrev pub is_quiet : State → Bool
is_quiet connecting = true
is_quiet s = is_over s

unfoldable pub on_tick : ℤ → Session → Session
on_tick now_us s =
    if is_quiet s.state
    then s
    else if s.pinged && ltb_ℤ (now_us -ℤ s.last_ping_us) (pos 500_000)
    then s
    else push (send_control (encode_frame Control.clock_ping (single (integer now_us))))
        (record s { pinged = true; last_ping_us = now_us })

unfoldable pub send_viewport : ℕ → ℕ → ℤ → Session → Session × Bool
send_viewport width height now_us s =
    if not (is_streaming s.state)
    then (s, false)
    else if s.viewport_sent && ltb_ℤ (now_us -ℤ s.last_viewport_us) (pos 250_000)
    then (s, false)
    else (
      push
          (send_control (
            encode_frame Control.viewport
              (single (array (item (integer (pos width)) (item (integer (pos height)) no_items))))))
          (record s { viewport_sent = true; last_viewport_us = now_us }),
      true,
    )

pub record StatsInput : Type 0 where
  pub frames_received : ℕ
  pub frames_dropped : ℕ
  pub datagrams : ℕ
  pub jitter_ms : ℕ
  pub decode_us : ℕ
  pub rtt_us : ℕ
  pub e2e_us : Option ℕ
  pub stream_id : ℕ

abbrev stats_e2e : Option ℕ → Fields → Fields
stats_e2e none rest = rest
stats_e2e (some us) rest = field (integer (pos 6)) (integer (to_i64 us)) rest

unfoldable pub stats_body : StatsInput → Fields
stats_body i = field (integer (pos 0)) (integer (to_i64 i.frames_received)) (
    field (integer (pos 1)) (integer (to_i64 i.frames_dropped)) (
      field (integer (pos 2)) (integer (to_i64 i.datagrams)) (
        field (integer (pos 3)) (floating i.jitter_ms) (
          field (integer (pos 4)) (integer (to_i64 i.decode_us)) (
            field (integer (pos 5)) (integer (to_i64 i.rtt_us)) (
              stats_e2e i.e2e_us (
                if i.stream_id == 0
                then no_fields
                else field (integer (pos 7)) (integer (pos i.stream_id)) no_fields)))))))

unfoldable pub encode_stats : StatsInput → List ℕ
unfolding stats_body
encode_stats i = encode_frame Control.stats (stats_body i)
