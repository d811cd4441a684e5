-- ===== src/Session/Rounds.antt =====
-- core/src/session.cpp: the rounds of the loop of `on_control_bytes`.
use loom_client.Common.{
  ℕ, zero, suc, ◌+◌, ◌<◌, ℤ, ◌≡◌, refl, arith, Bool, true, false, not, ◌&&◌, Option, some, List, [],
  length, length-drop, take, drop, ltb, ltb→le, ◌==◌, if◌then◌else◌, Bool-cases, inl, inr,
}
use loom_client.Result.{Result, ok, err}
use loom_client.Cbor.{Fields}
use loom_client.Control.{
  Decoded, Kind, message, ignored, decode_frame, ControlError, frame_len, max_frame_body,
}
use loom_client.Errors.{protocol_violation}
use loom_client.Session.Ops.{
  Session, Step, welcome, config, start, fatal, setup, close_sample, handle_message, handle_result,
  handle_frame, is_over, is_streaming, is_negotiating, handle_decoded, drain,
}

-- Handling a frame does not look at `rx_`, and leaves it alone.
close_sample-rx :
    (o0 o1 o2 : Option ℤ) (now : ℤ) (s : Session) (r : List ℕ)
    → close_sample o0 o1 o2 now (record s { rx = r })
      ≡ record (close_sample o0 o1 o2 now s) { rx = r }
unfolding close_sample
close_sample-rx (some a) (some b) (some c) now s r = refl
close_sample-rx _ _ _ now s r = refl

setup-rx :
    (step : Step) (t : ℕ) (body : Fields) (s : Session) (r : List ℕ)
    → setup step t body (record s { rx = r }) ≡ record (setup step t body s) { rx = r }
unfolding setup
setup-rx welcome t body s r = ground arith
setup-rx config t body s r = ground arith
setup-rx start t body s r = ground arith

abbrev pub set_rx : List ℕ → Session → Session
set_rx r s = record s { rx = r }

if-rx :
    (r : List ℕ) (b : Bool) (x' y' x y : Session)
    → x' ≡ set_rx r x
    → y' ≡ set_rx r y
    → (if b then x' else y') ≡ set_rx r (if b then x else y)
if-rx r true x' y' x y hx hy = hx
if-rx r false x' y' x y hx hy = hy

handle_message-rx :
    (t : ℕ) (body : Fields) (now : ℤ) (s : Session) (r : List ℕ)
    → handle_message t body now (set_rx r s) ≡ set_rx r (handle_message t body now s)
unfolding handle_message
handle_message-rx t body now s r = if-rx r (t == 0x41) _ _ _ _ refl (
    if-rx r (t == 0x40) _ _ _ _ refl (
      if-rx r (t == 0x31) _ _ _ _ (close_sample-rx _ _ _ now s r) (
        if-rx r (t == 0x03 && is_streaming s.state) _ _ _ _ refl
          (if-rx r (not (is_negotiating s.state)) _ _ _ _ refl (setup-rx s.step t body s r)))))

handle_result-rx :
    (d : Result Decoded ControlError) (now : ℤ) (s : Session) (r : List ℕ)
    → handle_result d now (set_rx r s) ≡ set_rx r (handle_result d now s)
handle_result-rx (err e) now s r = unfold fatal in refl
handle_result-rx (ok d) now s r = go d.kind
  where
    go : (k : Kind) → handle_decoded k d now (set_rx r s) ≡ set_rx r (handle_decoded k d now s)
    go message = handle_message-rx d.msg_type d.body now s r
    go ignored = refl

pub handle_frame-rx :
    (b : List ℕ) (now : ℤ) (s : Session) (r : List ℕ)
    → handle_frame b now (set_rx r s) ≡ set_rx r (handle_frame b now s)
unfolding handle_frame
handle_frame-rx b now s r = handle_result-rx (decode_frame b) now s r

-- The four ways that a round of the loop goes.
pub data Round (b : List ℕ) : Type 0 where
  too_short : ltb (length b) 4 ≡ true → Round b
  too_long : ltb (length b) 4 ≡ false → ltb max_frame_body (frame_len b) ≡ true → Round b
  partial :
      ltb (length b) 4 ≡ false
      → ltb max_frame_body (frame_len b) ≡ false
      → ltb (length b) (4 + frame_len b) ≡ true
      → Round b
  whole :
      ltb (length b) 4 ≡ false
      → ltb max_frame_body (frame_len b) ≡ false
      → ltb (length b) (4 + frame_len b) ≡ false
      → Round b

pub round : (b : List ℕ) → Round b
round b = elim (Bool-cases (ltb (length b) 4)) [
  | inl x ↦ too_short x
  | inr x ↦ elim (Bool-cases (ltb max_frame_body (frame_len b))) [
    | inl y ↦ too_long x y
    | inr y ↦ elim (Bool-cases (ltb (length b) (4 + frame_len b))) [
      | inl z ↦ partial x y z
      | inr z ↦ whole x y z
    ]
  ]
]

pub drain-rx :
    (f : ℕ) (now : ℤ) (b : List ℕ) (s : Session) (r : List ℕ)
    → drain f now b (set_rx r s) ≡ drain f now b s
unfolding drain
drain-rx zero now b s r = refl
drain-rx (suc f) now b s r = rw (handle_frame-rx (take (4 + frame_len b) b) now s r) (
    rw (drain-rx f now (drop (4 + frame_len b) b) (handle_frame (take (4 + frame_len b) b) now s) r)
      (unfold fatal in refl))

-- A round of each kind.
pub drain-short :
    (f : ℕ) (now : ℤ) (b : List ℕ) (s : Session)
    → ltb (length b) 4 ≡ true
    → drain (suc f) now b s ≡ set_rx b s
unfolding drain
drain-short f now b s x = rw x

pub drain-long :
    (f : ℕ) (now : ℤ) (b : List ℕ) (s : Session)
    → ltb (length b) 4 ≡ false
    → ltb max_frame_body (frame_len b) ≡ true
    → drain (suc f) now b s ≡ set_rx [] (fatal protocol_violation s)
unfolding drain
drain-long f now b s x y = rw (x, y)

pub drain-partial :
    (f : ℕ) (now : ℤ) (b : List ℕ) (s : Session)
    → ltb (length b) 4 ≡ false
    → ltb max_frame_body (frame_len b) ≡ false
    → ltb (length b) (4 + frame_len b) ≡ true
    → drain (suc f) now b s ≡ set_rx b s
unfolding drain
drain-partial f now b s x y z = rw (x, y, z)

abbrev pub first_frame : List ℕ → List ℕ
first_frame b = take (4 + frame_len b) b

abbrev pub behind_frame : List ℕ → List ℕ
behind_frame b = drop (4 + frame_len b) b

pub drain-whole :
    (f : ℕ) (now : ℤ) (b : List ℕ) (s : Session)
    → ltb (length b) 4 ≡ false
    → ltb max_frame_body (frame_len b) ≡ false
    → ltb (length b) (4 + frame_len b) ≡ false
    → drain (suc f) now b s ≡ (
        if is_over (handle_frame (first_frame b) now s).state
        then set_rx [] (handle_frame (first_frame b) now s)
        else drain f now (behind_frame b) (handle_frame (first_frame b) now s))
unfolding drain
drain-whole f now b s x y z = rw (x, y, z)

pub behind_shorter :
    (b : List ℕ) (f : ℕ) → ltb (length b) 4 ≡ false → length b < suc f → length (behind_frame b) < f
behind_shorter b f x h = omega (arith, ltb→le (length b) 4 x, length-drop (4 + frame_len b) b)

-- More rounds than bytes are enough: beyond that the fuel does not matter.
pub drain-fuel :
    (f g : ℕ) (now : ℤ) (b : List ℕ) (s : Session)
    → length b < f
    → length b < g
    → drain f now b s ≡ drain g now b s
drain-fuel zero g now b s hf hg = absurd (omega arith)
drain-fuel (suc f) zero now b s hf hg = absurd (omega arith)
drain-fuel (suc f) (suc g) now b s hf hg = elim (round b) [
  | too_short x ↦ rw (drain-short f now b s x, drain-short g now b s x)
  | too_long x y ↦ rw (drain-long f now b s x y, drain-long g now b s x y)
  | partial x y z ↦ rw (drain-partial f now b s x y z, drain-partial g now b s x y z)
  | whole x y z ↦ rw (
    drain-whole f now b s x y z,
    drain-whole g now b s x y z,
    drain-fuel f g now (behind_frame b) (handle_frame (first_frame b) now s)
        (behind_shorter b f x hf) (behind_shorter b g x hg),
  )
]
