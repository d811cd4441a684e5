-- ===== src/Session/Ops/Messages.antt =====
-- core/src/session.cpp: the session's state and what it does with a message.
use loom_client.Common.{
  ℕ, ℤ, pos, to_u64, to_i64, Bool, true, false, not, ◌&&◌, ◌||◌, Option, none, some, List, [], ◌∷◌,
  ◌++◌, ◌==◌, if◌then◌else◌,
}
use loom_client.Result.{Result, ok, err}
use loom_client.Cbor.{Value, Items, Fields, integer, text, array, no_items, item, no_fields, field}
use loom_client.Control
use loom_client.Control.{Decoded, Kind, ControlError, message, ignored, encode_frame}
use loom_client.ClockSync.{Estimate}
use loom_client.ClockSync
use loom_client.Errors.{protocol_violation, internal}
use loom_client.Session.Config.{
  SessionConfig, find_int, find_text, parse_config, value_or, unsigned,
}

pub record HelloParams : Type 0 where
  pub client_name : List ℕ
  pub codecs : List ℕ
  pub max_width : ℕ
  pub max_height : ℕ
  pub max_refresh : ℕ
  pub features : ℕ

pub data State : Type 0 where
  connecting negotiating streaming closed failed : State

pub data Step : Type 0 where
  welcome config start : Step

pub data Event : Type 0 where
  connected connection_lost user_bye : Event

-- The kinds of `Action`, each with the fields that are valid for it.
pub data Action : Type 0 where
  send_control : List ℕ → Action
  established media_expected config_changed : Action
  fatal_action : ℕ → Action
  closed_action : Action

pub record Session : Type 0 where
  pub params : HelloParams
  pub state : State
  pub step : Step
  pub rx : List ℕ
  pub out : List Action
  pub host_name : Option (List ℕ)
  pub config : Option SessionConfig
  pub active_features : ℕ
  pub clock_filter : List Estimate
  pub clock_estimate : Option Estimate
  pub last_ping_us : ℤ
  pub pinged : Bool
  pub last_viewport_us : ℤ
  pub viewport_sent : Bool

unfoldable pub new_session : HelloParams → Session
new_session params = record {
  params = params;
  state = connecting;
  step = Step.welcome;
  rx = [];
  out = [];
  host_name = none;
  config = none;
  active_features = 0;
  clock_filter = [];
  clock_estimate = none;
  last_ping_us = pos 0;
  pinged = false;
  last_viewport_us = pos 0;
  viewport_sent = false;
}

-- `state_ == State::Closed || state_ == State::Failed`
abbrev pub is_over : State → Bool
is_over closed = true
is_over failed = true
is_over _ = false

abbrev pub push : Action → Session → Session
push a s = record s { out = s.out ++ a ∷ [] }

unfoldable pub poll : Session → List Action × Session
poll s = (s.out, record s { out = [] })

unfoldable pub fatal : ℕ → Session → Session
fatal code s = push (fatal_action code) (record s { state = failed })

unfoldable pub codec_items : List ℕ → Items
codec_items [] = no_items
codec_items (c ∷ cs) = item (integer (to_i64 c)) (codec_items cs)

unfoldable pub hello_body : HelloParams → Fields
unfolding codec_items
hello_body p = field (integer (pos 0)) (integer (pos 1)) (
    field (integer (pos 1)) (text p.client_name) (
      field (integer (pos 2)) (array (codec_items p.codecs)) (
        field (integer (pos 3))
          (array (item (integer (pos p.max_width)) (item (integer (pos p.max_height)) no_items)))
          (field (integer (pos 4)) (integer (pos p.max_refresh))
            (field (integer (pos 5)) (integer (to_i64 p.features)) no_fields)))))

-- A body with the one key 0.
abbrev pub single : Value → Fields
single v = field (integer (pos 0)) v no_fields

abbrev pub start_event : Event → Session → Session
start_event connected s =
    record (push (send_control (encode_frame Control.hello (hello_body s.params))) s) {
      state = negotiating;
      step = Step.welcome;
    }
start_event connection_lost s = push (fatal_action internal) (record s { state = failed })
start_event user_bye s =
    push closed_action
      (record (push (send_control (encode_frame Control.bye (single (integer (pos 0))))) s) {
        state = closed;
      })

unfoldable pub on_event : Event → Session → Session
on_event ev s = if is_over s.state then s else start_event ev s

unfoldable pub send_config_ack : ℕ → Session → Session
send_config_ack generation s =
    push (send_control (encode_frame Control.config_ack (single (integer (to_i64 generation))))) s

-- `config_ = parse_config(body); send_config_ack(config_->generation);`
unfoldable pub apply_config : Fields → Session → Session
unfolding send_config_ack
apply_config body s =
    let c = parse_config body in send_config_ack c.generation (record s { config = some c })

unfoldable pub close_sample : Option ℤ → Option ℤ → Option ℤ → ℤ → Session → Session
close_sample (some t0) (some t1) (some t2) now_us s =
    let (w, e) = ClockSync.push t0 t1 t2 now_us s.clock_filter in
    record s { clock_filter = w; clock_estimate = some e }
close_sample _ _ _ now_us s = s

-- `find_int(body, 0) != 1`
abbrev pub is_one : Option ℤ → Bool
is_one (some (pos n)) = n == 1
is_one _ = false

-- The `switch (step_)` while negotiating.
unfoldable pub setup : Step → ℕ → Fields → Session → Session
unfolding fatal apply_config
setup welcome t body s =
    if not (t == Control.welcome) || not (is_one (find_int body (pos 0)))
    then fatal protocol_violation s
    else record (push established (record s {
      host_name = find_text body (pos 1);
      active_features = unsigned (find_int body (pos 3));
    })) { step = Step.config }
setup config t body s =
    if not (t == Control.config)
    then fatal protocol_violation s
    else record (apply_config body s) { step = Step.start }
setup start t body s =
    if not (t == Control.start)
    then fatal protocol_violation s
    else push media_expected (record s { state = streaming })

abbrev pub is_streaming : State → Bool
is_streaming streaming = true
is_streaming _ = false

abbrev pub is_negotiating : State → Bool
is_negotiating negotiating = true
is_negotiating _ = false

-- A message of a registered type.
unfoldable pub handle_message : ℕ → Fields → ℤ → Session → Session
unfolding setup close_sample
handle_message t body now_us s =
    if t == Control.bye
    then push closed_action (record s { state = closed })
    else if t == Control.error_msg
    then push (fatal_action (to_u64 (value_or (find_int body (pos 0)) (pos internal))))
        (record s { state = failed })
    else if t == Control.clock_pong
    then close_sample (find_int body (pos 0)) (find_int body (pos 1)) (find_int body (pos 2)) now_us
        s
    else if t == Control.config && is_streaming s.state
    then push config_changed (apply_config body s)
    else if not (is_negotiating s.state)
    then s
    else setup s.step t body s

abbrev pub handle_decoded : Kind → Decoded → ℤ → Session → Session
handle_decoded message d now_us s = handle_message d.msg_type d.body now_us s
handle_decoded ignored d now_us s = s

abbrev pub handle_result : Result Decoded ControlError → ℤ → Session → Session
handle_result (err e) now_us s = fatal protocol_violation s
handle_result (ok d) now_us s = handle_decoded d.kind d now_us s
