-- ===== src/NetSession/Streams.antt =====
-- quest/src/net_session.cpp: the streams that are served, and their receivers.
use loom_client.Common.{
  ℕ, ℤ, ◌≤◌, ◌≡◌, refl, ◌∙◌, arith, Bool, true, false, not, ◌&&◌, Bool-cases, inl, inr, Option,
  none, some, List, [], ◌∷◌, length, if◌then◌else◌, All, All-append, bit_and, ◌==◌,
}
use loom_client.Session.Config.{SessionConfig, StreamConfig}
use loom_client.Session.Ops.{
  Action, send_control, established, media_expected, fatal_action, closed_action, on_control_bytes,
}
use loom_client.VideoReceiver.{VideoReceiver, new_receiver}
use loom_client.VideoReceiver.Queue.{feed_datagram-IsBounded}
use loom_client.VideoReceiver.Routing.{feed_datagram-stream_id}
use loom_client.Transport.{TransportEvent, connected, control_bytes, datagram, closed}
use loom_client.NetSession.{
  NetSession, add_receiver, add_receivers, build_for, build_extra_receivers, feed_all,
  handle_transport, drain_events, emit_viewport, handle_action, handle_actions, tick, clear_flags,
  pump, stream_ids,
}
use loom_client.Session.Ops.{poll}

-- The receiver stands under its own stream, and two units at most wait for its decoder.
abbrev pub IsServed : ℕ × VideoReceiver → Type 0
IsServed (i, r) = (r.stream_id ≡ i) × (length r.au_queue ≤ 2)

feed_all-IsServed :
    (b : List ℕ) (t : ℤ) (rs : List (ℕ × VideoReceiver))
    → All IsServed rs
    → All IsServed (feed_all b t rs).0
unfolding feed_all
feed_all-IsServed b t [] h = tt
feed_all-IsServed b t ((i, r) ∷ rs) h = (
  (feed_datagram-stream_id b t r ∙ h.0.0, feed_datagram-IsBounded b t r h.0.1),
  feed_all-IsServed b t rs h.1,
)

feed_all-stream_ids :
    (b : List ℕ) (t : ℤ) (rs : List (ℕ × VideoReceiver))
    → stream_ids (feed_all b t rs).0 ≡ stream_ids rs
unfolding feed_all stream_ids
feed_all-stream_ids b t [] = refl
feed_all-stream_ids b t ((i, r) ∷ rs) = rw (feed_all-stream_ids b t rs)

add_receivers-IsServed :
    (cs : List StreamConfig) (rs : List (ℕ × VideoReceiver))
    → All IsServed rs
    → All IsServed (add_receivers cs rs)
unfolding add_receivers new_receiver
add_receivers-IsServed [] rs h = h
add_receivers-IsServed (c ∷ cs) rs h = add_receivers-IsServed cs (add_receiver c.stream_id rs) (
    All-append IsServed rs ((c.stream_id, new_receiver true c.stream_id) ∷ []) h
      ((refl, omega arith), tt))

build_for-IsServed :
    (o : Option SessionConfig) (s : NetSession)
    → All IsServed s.receivers
    → All IsServed (build_for o s).receivers
build_for-IsServed none s h = h
build_for-IsServed (some cfg) s h = elim (Bool-cases (bit_and s.session.active_features 2 == 0)) [
  | inl single ↦ rw single h
  | inr multi ↦ rw multi (add_receivers-IsServed cfg.extra_streams s.receivers h)
]

build_extra_receivers-IsServed :
    (s : NetSession) → All IsServed s.receivers → All IsServed (build_extra_receivers s).receivers
unfolding build_extra_receivers
build_extra_receivers-IsServed s h = go s.extra_receivers_built
  where
    go : (b : Bool) → All IsServed (if b then s else build_for s.session.config s).receivers
    go true = h
    go false = build_for-IsServed s.session.config s h

handle_transport-IsServed :
    (e : TransportEvent) (t : ℤ) (s : NetSession)
    → All IsServed s.receivers
    → All IsServed (handle_transport e t s).receivers
unfolding handle_transport
handle_transport-IsServed connected t s h = h
handle_transport-IsServed (control_bytes b) t s h =
    build_extra_receivers-IsServed (record s { session = on_control_bytes b t s.session }) h
handle_transport-IsServed (datagram b) t s h = feed_all-IsServed b _ s.receivers h
handle_transport-IsServed (closed code) t s h = h

drain_events-IsServed :
    (es : List TransportEvent) (t : ℤ) (s : NetSession)
    → All IsServed s.receivers
    → All IsServed (drain_events es t s).receivers
unfolding drain_events
drain_events-IsServed [] t s h = h
drain_events-IsServed (e ∷ es) t s h =
    drain_events-IsServed es t (handle_transport e t s) (handle_transport-IsServed e t s h)

handle_actions-receivers :
    (xs : List Action) (s : NetSession) → (handle_actions xs s).receivers ≡ s.receivers
unfolding handle_actions handle_action
handle_actions-receivers [] s = refl
handle_actions-receivers (send_control b ∷ xs) s = handle_actions-receivers xs _
handle_actions-receivers (established ∷ xs) s = handle_actions-receivers xs s
handle_actions-receivers (media_expected ∷ xs) s = handle_actions-receivers xs _
handle_actions-receivers (Action.config_changed ∷ xs) s = handle_actions-receivers xs _
handle_actions-receivers (fatal_action c ∷ xs) s = handle_actions-receivers xs _
handle_actions-receivers (closed_action ∷ xs) s = handle_actions-receivers xs _

emit_viewport-receivers : (t : ℤ) (s : NetSession) → (emit_viewport t s).receivers ≡ s.receivers
unfolding emit_viewport
emit_viewport-receivers t s =
    elim (Bool-cases
      (not (s.requested_viewport == 0) && not (s.requested_viewport == s.sent_viewport))) [
        | inl due ↦ rw due
        | inr done ↦ rw done
      ]

pump-receivers :
    (es : List TransportEvent) (t : ℤ) (s : NetSession)
    → (pump es t s).receivers ≡ (drain_events es t (clear_flags s)).receivers
unfolding pump
pump-receivers es t s =
    let s1 = tick t (drain_events es t (clear_flags s)) in
    let s2 = emit_viewport t s1 in
    let (actions, rest) = poll s2.session in
    handle_actions-receivers actions (record s2 { session = rest }) ∙ emit_viewport-receivers t s1

-- Every pump, whatever the transport reports, keeps each receiver under the stream that it was made
-- for, with two access units at most waiting for its decoder.
pub pump-IsServed :
    (es : List TransportEvent) (t : ℤ) (s : NetSession)
    → All IsServed s.receivers
    → All IsServed (pump es t s).receivers
pump-IsServed es t s h = rw (pump-receivers es t s) (drain_events-IsServed es t (clear_flags s) h)

handle_transport-stream_ids :
    (e : TransportEvent) (t : ℤ) (s : NetSession)
    → s.extra_receivers_built ≡ true
    → (stream_ids (handle_transport e t s).receivers ≡ stream_ids s.receivers)
      × ((handle_transport e t s).extra_receivers_built ≡ true)
unfolding handle_transport build_extra_receivers
handle_transport-stream_ids connected t s h = (refl, h)
handle_transport-stream_ids (control_bytes b) t s h = rw h (refl, refl)
handle_transport-stream_ids (datagram b) t s h = (feed_all-stream_ids b _ s.receivers, h)
handle_transport-stream_ids (closed code) t s h = (refl, h)

drain_events-stream_ids :
    (es : List TransportEvent) (t : ℤ) (s : NetSession)
    → s.extra_receivers_built ≡ true
    → stream_ids (drain_events es t s).receivers ≡ stream_ids s.receivers
unfolding drain_events
drain_events-stream_ids [] t s h = refl
drain_events-stream_ids (e ∷ es) t s h =
    let (same, built) = handle_transport-stream_ids e t s h in
    drain_events-stream_ids es t (handle_transport e t s) built ∙ same

-- Once the receivers of the extra displays are built, no pump adds, drops or reorders a stream.
pub pump-stream_ids :
    (es : List TransportEvent) (t : ℤ) (s : NetSession)
    → s.extra_receivers_built ≡ true
    → stream_ids (pump es t s).receivers ≡ stream_ids s.receivers
pump-stream_ids es t s h =
    rw (pump-receivers es t s) (drain_events-stream_ids es t (clear_flags s) h)
