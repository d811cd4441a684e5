-- ===== src/Session/Handshake.antt =====
-- core/src/session.cpp: the handshake with a host that sends WELCOME, CONFIG and START reaches
-- streaming, however the transport cuts what it sends.
use loom_client.Common.{
  ℕ, suc, ◌+◌, ◌%◌, ◌^◌, ◌≤◌, ◌<◌, ℤ, pos, to_i64, ◌≡◌, refl, sym, ◌∙◌, ap, arith, false,
  Bool-cases, inl, inr, some, List, [], ◌∷◌, ◌++◌, append-nil, append_assoc, length, take-length,
  drop-length, le→ltb, zero,
}
use loom_client.Cbor.{Fields, integer, map, IsRepresentable}
use loom_client.Cbor.Encode.{encode_canonical}
use loom_client.Control
use loom_client.Control.{
  Decoded, envelope, encode_frame, decode_frame, known_keys, registered, filter_known, keys_upto,
  frame_len, max_frame_body, message,
}
use loom_client.Control.RoundTrip.{canon_body, decode_frame-encode_frame, frame_len-encode}
use loom_client.Session.Config.{parse_config, find_int, find_text, unsigned}
use loom_client.Session.Ops.{
  push, negotiating, Session, HelloParams, established, media_expected, send_control, streaming,
  start, welcome, config, hello_body, handle_frame, handle_result, handle_decoded, handle_message,
  setup, apply_config, send_config_ack, single, is_over, drain, on_control_bytes, on_event,
  new_session,
}
use loom_client.Session.Rounds.{set_rx, first_frame, behind_frame, drain-whole}
use loom_client.Session.Stream.{on_control_bytes-append, open_call}
use loom_client.Session.Order.{connect}

-- What the client sees of a body that the host sent with type `t`.
abbrev pub seen : ℕ → Fields → Fields
seen n body = filter_known (keys_upto n) (canon_body body)

-- A body that the C++ types can hold, in a frame within the limit.
pub record Fits (t : ℕ) (body : Fields) : Type 0 where
  pub representable : IsRepresentable (map body)
  pub within : length (encode_canonical (envelope t body)) ≤ 65536

drain-nil : (f : ℕ) (now : ℤ) (s : Session) → drain f now [] s ≡ set_rx [] s
unfolding drain
drain-nil zero now s = refl
drain-nil (suc f) now s = refl

-- A whole frame with nothing behind it, in an empty buffer.
frame_alone :
    (b : List ℕ) (now : ℤ) (s : Session)
    → is_over s.state ≡ false
    → s.rx ≡ []
    → 4 ≤ length b
    → frame_len b ≤ 65536
    → length b ≡ 4 + frame_len b
    → on_control_bytes b now s ≡ set_rx [] (handle_frame b now s)
frame_alone b now s live empty four small size =
    let first : first_frame b ≡ b = rw (← size) (take-length b) in
    let behind : behind_frame b ≡ [] = rw (← size) (drop-length b) in
    let round : drain (suc (length b)) now b s ≡ set_rx [] (handle_frame b now s) =
      rw
        (
          drain-whole (length b) now b s (le→ltb (length b) 4 four)
              (le→ltb 65536 (frame_len b) small)
              (le→ltb (length b) (4 + frame_len b) (omega arith)),
          first,
          behind,
          drain-nil (length b) now (handle_frame b now s),
        )
        (elim (Bool-cases (is_over (handle_frame b now s).state)) [
          | inl over ↦ rw over
          | inr on ↦ rw on
        ]) in
    open_call b now s live ∙ ap (λ r. drain (suc (length (r ++ b))) now (r ++ b) s) empty ∙ round

encode_frame_size :
    (t : ℕ) (body : Fields)
    → Fits t body
    → let b = encode_frame t body in
      (4 ≤ length b) × (frame_len b ≤ 65536) × (length b ≡ 4 + frame_len b)
unfolding encode_frame
encode_frame_size t body h =
    let payload = encode_canonical (envelope t body) in
    let small : length payload % 2 ^ 32 ≡ length payload = omega (arith, h.within) in
    rw (small, frame_len-encode (length payload) payload (omega (arith, h.within)))
      (omega arith, h.within, omega arith)

-- A frame that the host wrote, in an empty buffer: its message is handled, and the buffer is empty.
frame_handled :
    (t : ℕ) (body : Fields) (now : ℤ) (s : Session)
    → is_over s.state ≡ false
    → s.rx ≡ []
    → t < 2 ^ 63
    → Fits t body
    → on_control_bytes (encode_frame t body) now s ≡ (
        let d = registered t (canon_body body) (known_keys t) in
        set_rx [] (handle_decoded d.kind d now s))
unfolding handle_frame
frame_handled t body now s live empty small h =
    let (four, within, size) = encode_frame_size t body h in
    frame_alone (encode_frame t body) now s live empty four within size
    ∙ ap (λ r. set_rx [] (handle_result r now s))
        (rw append-nil at (decode_frame-encode_frame t body [] small h.representable h.within))

-- The session behind each of the three messages.
abbrev pub welcomed : Fields → Session → Session
welcomed body s =
    record (push established (record s {
      host_name = find_text (seen 4 body) (pos 1);
      active_features = unsigned (find_int (seen 4 body) (pos 3));
    })) { step = config }

abbrev pub configured : Fields → Session → Session
configured body s = record (apply_config (seen 7 body) s) { step = start }

abbrev pub started : Session → Session
started s = push media_expected (record s { state = streaming })

welcome_handled :
    (body : Fields) (now : ℤ) (s : Session)
    → s.state ≡ negotiating
    → s.step ≡ welcome
    → s.rx ≡ []
    → Fits Control.welcome body
    → find_int (seen 4 body) (pos 0) ≡ some (pos 1)
    → on_control_bytes (encode_frame Control.welcome body) now s ≡ welcomed body (set_rx [] s)
unfolding known_keys handle_message setup
welcome_handled body now s n e empty h version =
    frame_handled Control.welcome body now s (rw n) empty (omega arith) h ∙ rw (n, e, version) refl

config_handled :
    (body : Fields) (now : ℤ) (s : Session)
    → s.state ≡ negotiating
    → s.step ≡ config
    → s.rx ≡ []
    → Fits Control.config body
    → on_control_bytes (encode_frame Control.config body) now s ≡ configured body (set_rx [] s)
unfolding known_keys handle_message setup apply_config send_config_ack
config_handled body now s n e empty h =
    frame_handled Control.config body now s (rw n) empty (omega arith) h ∙ rw (n, e) refl

start_handled :
    (body : Fields) (now : ℤ) (s : Session)
    → s.state ≡ negotiating
    → s.step ≡ start
    → s.rx ≡ []
    → Fits Control.start body
    → on_control_bytes (encode_frame Control.start body) now s ≡ started (set_rx [] s)
unfolding known_keys handle_message setup
start_handled body now s n e empty h =
    frame_handled Control.start body now s (rw n) empty (omega arith) h ∙ rw (n, e) refl

-- What the transport delivers, piece after piece.
abbrev pub feed_pieces : List (List ℕ) → ℤ → Session → Session
feed_pieces [] now s = s
feed_pieces (c ∷ cs) now s = feed_pieces cs now (on_control_bytes c now s)

abbrev pub joined : List (List ℕ) → List ℕ
joined [] = []
joined (c ∷ cs) = c ++ joined cs

feed_pieces-joined :
    (b : List ℕ) (cs : List (List ℕ)) (now : ℤ) (s : Session)
    → feed_pieces cs now (on_control_bytes b now s) ≡ on_control_bytes (b ++ joined cs) now s
feed_pieces-joined b [] now s = rw append-nil
feed_pieces-joined b (c ∷ cs) now s =
    ap (feed_pieces cs now) (sym (on_control_bytes-append b c now s))
    ∙ feed_pieces-joined (b ++ c) cs now s
    ∙ rw append_assoc

-- What the host sends in the handshake.
abbrev pub handshake : Fields → Fields → Fields → List ℕ
handshake w c b =
    encode_frame Control.welcome w
    ++ (encode_frame Control.config c ++ encode_frame Control.start b)

handshake_handled :
    (params : HelloParams) (w c b : Fields) (now : ℤ)
    → Fits Control.welcome w
    → Fits Control.config c
    → Fits Control.start b
    → find_int (seen 4 w) (pos 0) ≡ some (pos 1)
    → on_control_bytes (handshake w c b) now (connect params)
      ≡ started (configured c (welcomed w (connect params)))
unfolding on_event new_session apply_config send_config_ack
handshake_handled params w c b now hw hc hb version =
    let s1 = welcomed w (connect params) in
    let s2 = configured c s1 in
    on_control_bytes-append (encode_frame Control.welcome w) _ now (connect params)
    ∙ ap (on_control_bytes _ now) (welcome_handled w now (connect params) refl refl refl hw version)
    ∙ on_control_bytes-append (encode_frame Control.config c) _ now s1
    ∙ ap (on_control_bytes _ now) (config_handled c now s1 refl refl refl hc)
    ∙ start_handled b now s2 refl refl refl hb

-- A host that answers HELLO with WELCOME for version 1, CONFIG and START, each in a frame within the
-- limit, brings the session to streaming, whatever else the bodies say and however the transport
-- cuts the bytes: the session has sent HELLO and the ACK of the generation, it has reported
-- ESTABLISHED and MEDIA_EXPECTED in this order, it holds the host's name and the CONFIG, and no byte
-- is left over.
pub feed_pieces_streams :
    (params : HelloParams) (w c b : Fields) (c0 : List ℕ) (cs : List (List ℕ)) (now : ℤ)
    → Fits Control.welcome w
    → Fits Control.config c
    → Fits Control.start b
    → find_int (seen 4 w) (pos 0) ≡ some (pos 1)
    → joined (c0 ∷ cs) ≡ handshake w c b
    → let s = feed_pieces (c0 ∷ cs) now (connect params) in
      let cfg = parse_config (seen 7 c) in
      let ack = single (integer (to_i64 cfg.generation)) in
      (s.state ≡ streaming)
      × (s.out
          ≡ send_control (encode_frame Control.hello (hello_body params))
            ∷ established
            ∷ send_control (encode_frame Control.config_ack ack)
            ∷ media_expected
            ∷ [])
      × (s.host_name ≡ find_text (seen 4 w) (pos 1))
      × (s.config ≡ some cfg)
      × (s.rx ≡ [])
unfolding on_event new_session apply_config send_config_ack
feed_pieces_streams params w c b c0 cs now hw hc hb version whole =
    rw
      (
        feed_pieces-joined c0 cs now (connect params),
        whole,
        handshake_handled params w c b now hw hc hb version,
      )
      (refl, refl, refl, refl, refl)
