-- ===== src/NetSession/Linked.antt =====
-- quest/src/net_session.cpp, quest/src/quic_transport.cpp: the pump on the transport itself. `pump` of
-- NetSession takes the events as a list and records what is sent; here it takes them from the queue
-- and hands each frame to `send_control`.
use loom_client.Common.{
  ℕ, zero, suc, ◌<◌, ℤ, ◌≡◌, refl, sym, ◌∙◌, ap, arith, Bool, true, false, Option, none, some, List,
  [], ◌∷◌, ◌++◌, append-nil, append_assoc, length, drop, drop-append, drop-length, if◌then◌else◌,
}
use loom_client.Session.Config.{SessionConfig}
use loom_client.Session.Ops.{
  Session, Action, send_control, established, media_expected, fatal_action, closed_action, poll,
}
use loom_client.Session.Ops
use loom_client.Transport.{
  TransportEvent, connected, control_bytes, datagram, closed, QuicTransport, StartAnswers,
  next_event,
}
use loom_client.Transport
use loom_client.NetSession.{
  NetSession, handle_transport, drain_events, build_for, build_extra_receivers, emit_viewport,
  handle_action, handle_actions, poll_actions, tick, clear_flags, pump,
}

unfoldable pub start : StartAnswers → QuicTransport → QuicTransport × Bool
unfolding Transport.start
start a t = Transport.start a t

unfoldable pub send_all : List (List ℕ) → QuicTransport → QuicTransport
unfolding Transport.send_control
send_all [] t = t
send_all (f ∷ fs) t = send_all fs (Transport.send_control f t)

-- What a step of the pump has sent.
abbrev pub new_frames : NetSession → NetSession → List (List ℕ)
new_frames before after = drop (length before.sent) after.sent

-- `while (auto ev = transport_.next_event())`, with fuel for the rounds.
unfoldable pub take_events : ℕ → ℤ → NetSession → QuicTransport → NetSession × QuicTransport
unfolding next_event handle_transport send_all
take_events zero now_us s t = (s, t)
take_events (suc fuel) now_us s t =
    let (o, t1) = next_event t in
    elim o [
      | none ↦ (s, t1)
      | some ev ↦
          let after = handle_transport ev now_us s in
          take_events fuel now_us after (send_all (new_frames s after) t1)
    ]

-- What the pump does behind the events.
abbrev pub finish : ℤ → NetSession → NetSession
finish now_us s = poll_actions (emit_viewport now_us (tick now_us s))

-- A pump takes all events that wait.
unfoldable pub pump_linked : ℤ → NetSession → QuicTransport → NetSession × QuicTransport
unfolding take_events emit_viewport handle_actions
pump_linked now_us s t =
    let (s1, t1) = take_events (suc (length t.events)) now_us (clear_flags s) t in
    let s2 = finish now_us s1 in (s2, send_all (new_frames s1 s2) t1)

-- `after` has sent what `before` had, and more behind it.
abbrev HasMore : NetSession → NetSession → Type 0
HasMore before after = (fs : List (List ℕ)) × (after.sent ≡ before.sent ++ fs)

HasMore-refl : (s : NetSession) → HasMore s s
HasMore-refl s = ([], sym (append-nil s.sent))

HasMore-trans : (a b c : NetSession) → HasMore a b → HasMore b c → HasMore a c
HasMore-trans a b c (fs, e) (gs, h) =
    (fs ++ gs, h ∙ ap (λ l. l ++ gs) e ∙ append_assoc a.sent fs gs)

if-HasMore :
    (c : Bool) (a x y : NetSession) → HasMore a x → HasMore a y → HasMore a (if c then x else y)
if-HasMore true a x y h k = h
if-HasMore false a x y h k = k

build_for-HasMore : (o : Option SessionConfig) (s : NetSession) → HasMore s (build_for o s)
build_for-HasMore none s = HasMore-refl s
build_for-HasMore (some cfg) s = if-HasMore _ s _ _ (HasMore-refl s) (HasMore-refl s)

handle_transport-HasMore :
    (ev : TransportEvent) (now_us : ℤ) (s : NetSession) → HasMore s (handle_transport ev now_us s)
unfolding handle_transport build_extra_receivers
handle_transport-HasMore connected now_us s = HasMore-refl s
handle_transport-HasMore (control_bytes bytes) now_us s =
    let s1 : NetSession = record s { session = Ops.on_control_bytes bytes now_us s.session } in
    if-HasMore s.extra_receivers_built s _ _ (HasMore-refl s)
      (build_for-HasMore s1.session.config s1)
handle_transport-HasMore (datagram bytes) now_us s = (_, refl)
handle_transport-HasMore (closed code) now_us s = HasMore-refl s

handle_actions-HasMore : (as' : List Action) (s : NetSession) → HasMore s (handle_actions as' s)
unfolding handle_actions handle_action
handle_actions-HasMore [] s = HasMore-refl s
handle_actions-HasMore (send_control bytes ∷ as') s =
    let s1 : NetSession = record s { sent = s.sent ++ bytes ∷ [] } in
    HasMore-trans s s1 (handle_actions as' s1) (bytes ∷ [], refl) (handle_actions-HasMore as' s1)
handle_actions-HasMore (established ∷ as') s = handle_actions-HasMore as' s
handle_actions-HasMore (media_expected ∷ as') s =
    handle_actions-HasMore as' (record s { streaming = true; just_started_streaming = true })
handle_actions-HasMore (Action.config_changed ∷ as') s =
    handle_actions-HasMore as' (record s { config_changed = true })
handle_actions-HasMore (fatal_action code ∷ as') s =
    handle_actions-HasMore as' (record s { fatal_flag = true })
handle_actions-HasMore (closed_action ∷ as') s =
    handle_actions-HasMore as' (record s { closed_flag = true })

finish-HasMore : (now_us : ℤ) (s : NetSession) → HasMore s (finish now_us s)
unfolding emit_viewport
finish-HasMore now_us s =
    let s1 = emit_viewport now_us (tick now_us s) in
    let (actions, session) = poll s1.session in
    let emitted : HasMore s s1 = if-HasMore _ s _ _ (HasMore-refl s) (HasMore-refl s) in
    HasMore-trans s s1 (finish now_us s) emitted
      (handle_actions-HasMore actions (record s1 { session = session }))

-- With the control stream open, every frame is sent.
send_all-sent :
    (fs : List (List ℕ)) (t : QuicTransport)
    → send_all fs (record t { control = true }) ≡ record t { control = true; sent = t.sent ++ fs }
unfolding send_all Transport.send_control
send_all-sent [] t = ap (λ l. record t { control = true; sent = l }) (sym (append-nil t.sent))
send_all-sent (f ∷ fs) t =
    send_all-sent fs (record t { sent = t.sent ++ f ∷ [] })
    ∙ ap (λ l. record t { control = true; sent = l }) (append_assoc t.sent (f ∷ []) fs)

new_frames_trans :
    (a b c : NetSession)
    → HasMore a b
    → HasMore b c
    → new_frames a b ++ new_frames b c ≡ new_frames a c
new_frames_trans a b c (fs, e) (gs, h) =
    ap (λ l. drop (length a.sent) l ++ new_frames b c) e
    ∙ ap (λ l. l ++ new_frames b c) (drop-append a.sent fs)
    ∙ ap (λ l. fs ++ drop (length b.sent) l) h
    ∙ ap (λ l. fs ++ l) (drop-append b.sent gs)
    ∙ sym (drop-append a.sent (fs ++ gs))
    ∙ ap (drop (length a.sent))
        (sym (append_assoc a.sent fs gs) ∙ ap (λ l. l ++ gs) (sym e) ∙ sym h)

drain_events-HasMore :
    (evs : List TransportEvent) (now_us : ℤ) (s : NetSession)
    → HasMore s (drain_events evs now_us s)
unfolding drain_events
drain_events-HasMore [] now_us s = HasMore-refl s
drain_events-HasMore (ev ∷ evs) now_us s =
    let s1 = handle_transport ev now_us s in
    HasMore-trans s s1 (drain_events evs now_us s1) (handle_transport-HasMore ev now_us s)
      (drain_events-HasMore evs now_us s1)

take_events-drain_events :
    (evs : List TransportEvent) (fuel : ℕ) (now_us : ℤ) (s : NetSession) (t : QuicTransport)
    → length evs < fuel
    → take_events fuel now_us s (record t { control = true; events = evs }) ≡ (
      drain_events evs now_us s,
      record t {
        control = true;
        events = [];
        sent = t.sent ++ new_frames s (drain_events evs now_us s);
      },
    )
unfolding take_events drain_events
take_events-drain_events [] zero now_us s t h = absurd (omega arith)
take_events-drain_events (ev ∷ evs) zero now_us s t h = absurd (omega arith)
take_events-drain_events [] (suc fuel) now_us s t h =
    ap (λ l. (s, record t { control = true; events = []; sent = l }))
      (sym (append-nil t.sent) ∙ ap (λ l. t.sent ++ l) (sym (drop-length s.sent)))
take_events-drain_events (ev ∷ evs) (suc fuel) now_us s t h =
    let s1 = handle_transport ev now_us s in
    let last = drain_events evs now_us s1 in
    let frames = new_frames s s1 in
    ap (take_events fuel now_us s1) (send_all-sent frames (record t { events = evs }))
    ∙ take_events-drain_events evs fuel now_us s1 (record t { sent = t.sent ++ frames })
        (omega arith)
    ∙ ap (λ l. (last, record t { control = true; events = []; sent = l }))
        (append_assoc t.sent frames (new_frames s1 last)
          ∙ ap (λ l. t.sent ++ l)
              (new_frames_trans s s1 last (handle_transport-HasMore ev now_us s)
                (drain_events-HasMore evs now_us s1)))

-- With the control stream open, a pump on the transport comes to what the pump on the list of the
-- waiting events comes to: it takes every event, once and in order, leaves none, and gives the
-- transport each frame that the pump records, in order and nothing else.
pub pump_linked-pump :
    (evs : List TransportEvent) (now_us : ℤ) (s : NetSession) (t : QuicTransport)
    → pump_linked now_us s (record t { control = true; events = evs }) ≡ (
      pump evs now_us s,
      record t { control = true; events = []; sent = t.sent ++ new_frames s (pump evs now_us s) },
    )
unfolding pump_linked pump
pump_linked-pump evs now_us s t =
    let s1 = drain_events evs now_us (clear_flags s) in
    let s2 = finish now_us s1 in
    let frames = new_frames s s1 in
    ap
      (λ (p : NetSession × QuicTransport).
        (finish now_us p.0, send_all (new_frames p.0 (finish now_us p.0)) p.1))
      (take_events-drain_events evs (suc (length evs)) now_us (clear_flags s) t (omega arith))
    ∙ ap (λ q. (s2, q))
        (send_all-sent (new_frames s1 s2) (record t { events = []; sent = t.sent ++ frames }))
    ∙ ap (λ l. (s2, record t { control = true; events = []; sent = l }))
        (append_assoc t.sent frames (new_frames s1 s2)
          ∙ ap (λ l. t.sent ++ l)
              (new_frames_trans (clear_flags s) s1 s2
                (drain_events-HasMore evs now_us (clear_flags s)) (finish-HasMore now_us s1)))
