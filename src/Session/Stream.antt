-- ===== src/Session/Stream.antt =====
-- core/src/session.cpp: how `on_control_bytes` cuts the control stream into frames.
use loom_client.Common.{
  ℕ, zero, suc, ◌+◌, ◌≤◌, ◌<◌, ℤ, ◌≡◌, refl, sym, ◌∙◌, arith, Bool, true, false, List, [], ◌++◌,
  append_assoc, ◌⊎◌, length, length-append, take-append_le, drop-append_le, ltb, ltb→le, ltb→lt,
  le→ltb, Bool-cases, inl, inr,
}
use loom_client.Control.{frame_len, max_frame_body}
use loom_client.Control.Accepts.{frame_len-append}
use loom_client.Errors.{protocol_violation}
use loom_client.Session.Ops.{Session, fatal, handle_frame, is_over, drain, on_control_bytes}
use loom_client.Session.Rounds.{
  set_rx, too_short, too_long, partial, whole, round, drain-rx, drain-short, drain-long,
  drain-partial, drain-whole, first_frame, behind_frame, behind_shorter, drain-fuel,
}

abbrev pub IsOpen : Session → Type 0
IsOpen s = is_over s.state ≡ false

-- Bytes that a call left in the buffer are taken up again by the next.
resume :
    (f : ℕ) (now : ℤ) (c b : List ℕ) (s : Session)
    → IsOpen s
    → length (c ++ b) < f
    → drain f now (c ++ b) s ≡ on_control_bytes b now (set_rx c s)
unfolding on_control_bytes
resume f now c b s live h = rw live (
    drain-fuel f (suc (length (c ++ b))) now (c ++ b) s h (omega arith)
    ∙ sym (drain-rx (suc (length (c ++ b))) now (c ++ b) s (c ++ b)))

-- A session that is over takes no bytes.
pub on_control_bytes-over :
    (b : List ℕ) (now : ℤ) (s : Session) → is_over s.state ≡ true → on_control_bytes b now s ≡ s
unfolding on_control_bytes
on_control_bytes-over b now s over = rw over

-- One that is not over runs the loop over all that is there.
pub open_call :
    (b : List ℕ) (now : ℤ) (s : Session)
    → IsOpen s
    → on_control_bytes b now s ≡ drain (suc (length (s.rx ++ b))) now (s.rx ++ b) s
unfolding on_control_bytes
open_call b now s live = rw live (drain-rx (suc (length (s.rx ++ b))) now (s.rx ++ b) s (s.rx ++ b))

-- A frame at the front of `c` is at the front of `c ++ b`.
first_frame-append :
    (c b : List ℕ)
    → ltb (length c) 4 ≡ false
    → ltb (length c) (4 + frame_len c) ≡ false
    → (first_frame (c ++ b) ≡ first_frame c) × (behind_frame (c ++ b) ≡ behind_frame c ++ b)
first_frame-append c b x z = rw (frame_len-append c b (ltb→le (length c) 4 x)) (
  take-append_le (4 + frame_len c) c b (ltb→le (length c) (4 + frame_len c) z),
  drop-append_le (4 + frame_len c) c b (ltb→le (length c) (4 + frame_len c) z),
)

drain-append :
    (f g : ℕ) (now : ℤ) (c b : List ℕ) (s : Session)
    → IsOpen s
    → length c < f
    → length (c ++ b) < g
    → drain g now (c ++ b) s ≡ on_control_bytes b now (drain f now c s)
drain-append zero g now c b s live hf hg = absurd (omega arith)
drain-append (suc f) zero now c b s live hf hg = absurd (omega arith)
drain-append (suc f) (suc g) now c b s live hf hg = elim (round c) [
  | too_short x ↦ rw (drain-short f now c s x) (resume (suc g) now c b s live hg)
  | partial x y z ↦ rw (drain-partial f now c s x y z) (resume (suc g) now c b s live hg)
  | too_long x y ↦ rw (
    drain-long f now c s x y,
    drain-long g now (c ++ b) s (still_four x) (same_len x y),
    on_control_bytes-over b now (set_rx [] (fatal protocol_violation s)) (unfold fatal in refl),
  )
  | whole x y z ↦
      let (front, back) = first_frame-append c b x z in
      let s' = handle_frame (first_frame c) now s in
      rw
        (
          drain-whole f now c s x y z,
          drain-whole g now (c ++ b) s (still_four x) (same_len x y) (still_whole x z),
          front,
          back,
        )
        (elim (Bool-cases (is_over s'.state)) [
          | inl over ↦ rw over (sym (on_control_bytes-over b now (set_rx [] s') over))
          | inr open' ↦ rw open' (
              drain-append f g now (behind_frame c) b s' open' (behind_shorter c f x hf)
                (rw back at (behind_shorter (c ++ b) g (still_four x) hg)))
        ])
]
  where
    size : length (c ++ b) ≡ length c + length b
    size = length-append c b

    still_four : ltb (length c) 4 ≡ false → ltb (length (c ++ b)) 4 ≡ false
    still_four x = le→ltb (length (c ++ b)) 4 (omega (arith, size, ltb→le (length c) 4 x))

    same_len :
        {t : Bool}
        → ltb (length c) 4 ≡ false
        → ltb max_frame_body (frame_len c) ≡ t
        → ltb max_frame_body (frame_len (c ++ b)) ≡ t
    same_len x y = rw (frame_len-append c b (ltb→le (length c) 4 x)) y

    still_whole :
        ltb (length c) 4 ≡ false
        → ltb (length c) (4 + frame_len c) ≡ false
        → ltb (length (c ++ b)) (4 + frame_len (c ++ b)) ≡ false
    still_whole x z = rw (frame_len-append c b (ltb→le (length c) 4 x)) (
        le→ltb (length (c ++ b)) (4 + frame_len c)
          (omega (arith, size, ltb→le (length c) (4 + frame_len c) z)))

-- Feeding the control stream in two pieces, at any cut, is feeding it at once: the same actions in
-- the same order, the same state, the same bytes left in the buffer.
pub on_control_bytes-append :
    (a b : List ℕ) (now : ℤ) (s : Session)
    → on_control_bytes (a ++ b) now s ≡ on_control_bytes b now (on_control_bytes a now s)
on_control_bytes-append a b now s = elim (Bool-cases (is_over s.state)) [
  | inl over ↦
      rw (on_control_bytes-over (a ++ b) now s over, on_control_bytes-over a now s over)
        (sym (on_control_bytes-over b now s over))
  | inr live ↦
      rw (open_call (a ++ b) now s live, open_call a now s live, ← append_assoc s.rx a b)
        (drain-append _ _ now (s.rx ++ a) b s live (omega arith) (omega arith))
]

-- What stays in the buffer: fewer than four bytes, or a frame within the limit that is not whole.
abbrev pub Unfinished : List ℕ → Type 0
Unfinished r = (length r < 4) ⊎ ((frame_len r ≤ 65536) × (length r < 4 + frame_len r))

drain-Unfinished :
    (f : ℕ) (now : ℤ) (b : List ℕ) (s : Session) → length b < f → Unfinished (drain f now b s).rx
drain-Unfinished zero now b s h = absurd (omega arith)
drain-Unfinished (suc f) now b s h = elim (round b) [
  | too_short x ↦ rw (drain-short f now b s x) (inl (ltb→lt (length b) 4 x))
  | too_long x y ↦ rw (drain-long f now b s x y) (inl (omega arith))
  | partial x y z ↦
      rw (drain-partial f now b s x y z)
        (inr (ltb→le 65536 (frame_len b) y, ltb→lt (length b) (4 + frame_len b) z))
  | whole x y z ↦
      let s' = handle_frame (first_frame b) now s in
      rw (drain-whole f now b s x y z) (elim (Bool-cases (is_over s'.state)) [
        | inl over ↦ rw over (inl (omega arith))
        | inr live ↦ rw live (drain-Unfinished f now (behind_frame b) s' (behind_shorter b f x h))
      ])
]

-- When `on_control_bytes` returns, its loop has taken every whole frame: less than a frame is left
-- in the buffer, fewer than 65540 bytes.
pub on_control_bytes-Unfinished :
    (b : List ℕ) (now : ℤ) (s : Session)
    → Unfinished s.rx
    → Unfinished (on_control_bytes b now s).rx × (length (on_control_bytes b now s).rx < 65540)
on_control_bytes-Unfinished b now s h = (left, small (on_control_bytes b now s).rx left)
  where
    left : Unfinished (on_control_bytes b now s).rx
    left = elim (Bool-cases (is_over s.state)) [
      | inl over ↦ rw (on_control_bytes-over b now s over) h
      | inr live ↦ rw (open_call b now s live) (drain-Unfinished _ now (s.rx ++ b) s (omega arith))
    ]

    small : (r : List ℕ) → Unfinished r → length r < 65540
    small r (inl x) = omega arith
    small r (inr y) = omega arith
