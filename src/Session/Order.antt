-- ===== src/Session/Order.antt =====
-- core/src/session.cpp: the order of the actions over the life of a session.
use loom_client.Common.{
  ℕ, suc, ℤ, pos, ◌-ℤ◌, ltb_ℤ, ◌≡◌, refl, false, not, ◌&&◌, Bool-cases, inl, inr, some, List, [],
  ◌∷◌, ◌++◌, length, All,
}
use loom_client.Cbor.{integer, array, no_items, item}
use loom_client.Control
use loom_client.Control.{encode_frame}
use loom_client.Errors.{internal}
use loom_client.Session.Ops.{
  Session, State, HelloParams, connecting, closed, failed, connected, connection_lost, user_bye,
  send_control, fatal_action, closed_action, new_session, single, push, hello_body, is_over,
  is_quiet, is_streaming, on_control_bytes, on_event, on_tick, send_viewport,
}
use loom_client.Session.Rounds.{set_rx}
use loom_client.Session.Phases.{
  idle, phase, replay, Extends, Extends-refl, Extends-trans, Extends-one, if-Extends, closes, fails,
  sends, drain-Extends,
}

-- What a session is fed.
pub data Input : Type 0 where
  bytes : List ℕ → ℤ → Input
  connects lost user_ends : Input
  tick : ℤ → Input
  viewport : (width height : ℕ) → ℤ → Input

abbrev pub feed : Input → Session → Session
feed (bytes b now) s = on_control_bytes b now s
feed connects s = on_event connected s
feed lost s = on_event connection_lost s
feed user_ends s = on_event user_bye s
feed (tick now) s = on_tick now s
feed (viewport w h now) s = (send_viewport w h now s).0

abbrev pub feed_inputs : List Input → Session → Session
feed_inputs [] s = s
feed_inputs (i ∷ is) s = feed_inputs is (feed i s)

-- Anything but the event that the transport is connected.
abbrev pub IsLater : Input → Type 0
IsLater connects = ⊥
IsLater _ = Unit {0}

from_rx : (r : List ℕ) (s s' : Session) → Extends (set_rx r s) s' → Extends s s'
from_rx r s s' x = record { emitted = x.emitted; appended = x.appended; legal = x.legal }

on_control_bytes-Extends :
    (b : List ℕ) (now : ℤ) (s : Session) → Extends s (on_control_bytes b now s)
unfolding on_control_bytes
on_control_bytes-Extends b now s =
    let rx = s.rx ++ b in
    if-Extends s (is_over s.state) _ _ (λ over. Extends-refl s)
      (λ live. from_rx rx s _ (drain-Extends (suc (length rx)) now rx (set_rx rx s) live))

quiet_live : (st : State) → is_quiet st ≡ false → is_over st ≡ false
quiet_live State.negotiating h = refl
quiet_live State.streaming h = refl
quiet_live connecting h = cc
quiet_live closed h = cc
quiet_live failed h = cc

on_tick-Extends : (now : ℤ) (s : Session) → Extends s (on_tick now s)
unfolding on_tick
on_tick-Extends now s =
    if-Extends s (is_quiet s.state) _ _ (λ quiet. Extends-refl s)
      λ live.
        if-Extends s (s.pinged && ltb_ℤ (now -ℤ s.last_ping_us) (pos 500_000)) _ _
          (λ early. Extends-refl s)
          (λ due.
            let ping = encode_frame Control.clock_ping (single (integer now)) in
            Extends-one (send_control ping) s _ refl
              (sends ping s.state s.step (quiet_live s.state live)))

streaming_live : (st : State) → not (is_streaming st) ≡ false → is_over st ≡ false
streaming_live State.streaming h = refl
streaming_live State.negotiating h = cc
streaming_live connecting h = cc
streaming_live closed h = cc
streaming_live failed h = cc

send_viewport-Extends : (w h : ℕ) (now : ℤ) (s : Session) → Extends s (send_viewport w h now s).0
unfolding send_viewport
send_viewport-Extends w h now s = elim (Bool-cases (not (is_streaming s.state))) [
  | inl off ↦ rw off (Extends-refl s)
  | inr on ↦
      elim (Bool-cases (s.viewport_sent && ltb_ℤ (now -ℤ s.last_viewport_us) (pos 250_000))) [
        | inl early ↦ rw (on, early) (Extends-refl s)
        | inr due ↦
            let frame =
              encode_frame Control.viewport
                (single (array (item (integer (pos w)) (item (integer (pos h)) no_items)))) in
            rw (on, due)
              (Extends-one (send_control frame) s _ refl
                (sends frame s.state s.step (streaming_live s.state on)))
      ]
]

lost-Extends : (s : Session) → Extends s (on_event connection_lost s)
unfolding on_event
lost-Extends s =
    if-Extends s (is_over s.state) _ _ (λ over. Extends-refl s)
      (λ live. Extends-one (fatal_action internal) s _ refl (fails internal s.state s.step live))

user_ends-Extends : (s : Session) → Extends s (on_event user_bye s)
unfolding on_event
user_ends-Extends s =
    if-Extends s (is_over s.state) _ _ (λ over. Extends-refl s)
      λ live.
        let bye = encode_frame Control.bye (single (integer (pos 0))) in
        let s1 = push (send_control bye) s in
        Extends-trans s s1 _
          (Extends-one (send_control bye) s s1 refl (sends bye s.state s.step live))
          (Extends-one closed_action s1 _ refl (closes s.state s.step live))

feed-Extends : (i : Input) (s : Session) → IsLater i → Extends s (feed i s)
feed-Extends (bytes b now) s h = on_control_bytes-Extends b now s
feed-Extends connects s h = absurd h
feed-Extends lost s h = lost-Extends s
feed-Extends user_ends s h = user_ends-Extends s
feed-Extends (tick now) s h = on_tick-Extends now s
feed-Extends (viewport w h now) s k = send_viewport-Extends w h now s

feed_inputs-Extends :
    (is : List Input) (s : Session) → All IsLater is → Extends s (feed_inputs is s)
feed_inputs-Extends [] s h = Extends-refl s
feed_inputs-Extends (i ∷ is) s (later, rest) =
    Extends-trans s (feed i s) _ (feed-Extends i s later) (feed_inputs-Extends is (feed i s) rest)

abbrev pub connect : HelloParams → Session
connect params = on_event connected (new_session params)

connect-Extends : (params : HelloParams) → Extends (new_session params) (connect params)
unfolding new_session on_event
connect-Extends params =
    Extends-one (send_control (encode_frame Control.hello (hello_body params))) _ _ refl refl

-- A session is connected once, and after that fed anything but a second `Connected`: bytes of the
-- control stream, the loss of the connection, the user's end, ticks and viewports. Then all its
-- actions, from the first to the last and with none polled in between, are in a legal order:
-- ESTABLISHED, then MEDIA_EXPECTED, then CONFIG_CHANGED any number of times, each among frames to
-- send, and nothing behind a FATAL or CLOSED; and the state tells how far it came.
pub feed_inputs-replay :
    (params : HelloParams) (is : List Input)
    → All IsLater is
    → let s = feed_inputs is (connect params) in replay s.out idle ≡ some (phase s)
unfolding new_session
feed_inputs-replay params is later =
    let whole =
      Extends-trans (new_session params) (connect params) _ (connect-Extends params)
        (feed_inputs-Extends is (connect params) later) in
    rw whole.appended whole.legal
