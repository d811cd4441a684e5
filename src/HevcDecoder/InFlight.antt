-- ===== src/HevcDecoder/InFlight.antt =====
-- quest/src/hevc_decoder.cpp: the cap on the frames that the codec holds.
use loom_client.Common.{
  ℕ, ◌≤◌, ◌+◌, ℤ, to_i64, ◌≡◌, refl, arith, Bool, true, false, not, Bool-cases, inl, inr, Option,
  none, some, List, [], ◌∷◌, length, ltb, leb, leb→lt, if◌then◌else◌,
}
use loom_client.VideoReceiver.{AccessUnit, VideoReceiver, Popped, waits, drained, popped, pop_au}
use loom_client.HevcDecoder.{
  HevcDecoder, Output, Answers, find_queued, erase_queued, put_queued, measure, render,
  drain_outputs, queue_input, try_input, feed_popped, feed_input, decode_round, decode_loop,
}

length-erase_queued_le : (p : ℤ) (m : List (ℤ × ℤ)) → length (erase_queued p m) ≤ length m
unfolding erase_queued
length-erase_queued_le p [] = omega arith
length-erase_queued_le p ((q, t) ∷ m) = ground (arith, length-erase_queued_le p m)

length-put_queued_le : (p t : ℤ) (m : List (ℤ × ℤ)) → length (put_queued p t m) ≤ length m + 1
unfolding put_queued
length-put_queued_le p t [] = omega arith
length-put_queued_le p t ((q, u) ∷ m) = ground (arith, length-put_queued_le p t m)

module _ {F : Type 0} (to_ms : ℤ → F) where
  -- Two frames at most are in the codec, now and at any time before.
  abbrev pub IsCapped : HevcDecoder F → Type 0
  IsCapped s = (length s.queued_ns ≤ 2) × (s.metrics.most_in_flight ≤ 2)

  measure-fewer :
      (out : Output) (o : Option ℤ) (s : HevcDecoder F)
      → (length (measure to_ms out o s).queued_ns ≤ length s.queued_ns)
        × ((measure to_ms out o s).metrics.most_in_flight ≡ s.metrics.most_in_flight)
  measure-fewer out none s = (omega arith, refl)
  measure-fewer out (some t) s = (length-erase_queued_le out.pts s.queued_ns, refl)

  drain_outputs-fewer :
      (outs : List Output) (s : HevcDecoder F)
      → (length (drain_outputs to_ms outs s).queued_ns ≤ length s.queued_ns)
        × ((drain_outputs to_ms outs s).metrics.most_in_flight ≡ s.metrics.most_in_flight)
  unfolding drain_outputs
  drain_outputs-fewer [] s = (omega arith, refl)
  drain_outputs-fewer (out ∷ outs) s =
      let s1 = measure to_ms out (find_queued out.pts s.queued_ns) s in
      let (one, same) = measure-fewer out (find_queued out.pts s.queued_ns) s in
      let (rest, also) = drain_outputs-fewer outs (render to_ms s1) in (omega arith, omega arith)

  queue_input-IsCapped :
      (au : AccessUnit) (t : ℤ) (s : HevcDecoder F)
      → length s.queued_ns ≤ 1
      → IsCapped s
      → IsCapped (queue_input to_ms au t s)
  queue_input-IsCapped au t s room h =
      ground (arith, length-put_queued_le (to_i64 au.capture_ts) t s.queued_ns)

  try_input-IsCapped :
      (o : Option ℕ) (au : AccessUnit) (t : ℤ) (s : HevcDecoder F)
      → length s.queued_ns ≤ 1
      → IsCapped s
      → IsCapped (try_input to_ms o au t s)
  try_input-IsCapped none au t s room h = h
  try_input-IsCapped (some c) au t s room h = elim (Bool-cases (ltb c (length au.au_data))) [
    | inl small ↦ rw small h
    | inr fits ↦ rw fits (queue_input-IsCapped au t s room h)
  ]

  feed_popped-IsCapped :
      (a : Answers) (p : Popped × VideoReceiver) (s : HevcDecoder F)
      → length s.queued_ns ≤ 1
      → IsCapped s
      → IsCapped (feed_popped to_ms a p s)
  feed_popped-IsCapped a (waits, r) s room h = h
  feed_popped-IsCapped a (drained, r) s room h = h
  feed_popped-IsCapped a (popped au, r) s room h =
      try_input-IsCapped a.capacity au a.now_ns (record s { receiver = r }) room h

  feed_input-IsCapped :
      (a : Answers) (s : HevcDecoder F)
      → length s.queued_ns ≤ 1
      → IsCapped s
      → IsCapped (feed_input to_ms a s)
  unfolding feed_input
  feed_input-IsCapped a s room h = elim (Bool-cases a.has_slot) [
    | inl slot ↦ rw slot (feed_popped-IsCapped a (pop_au s.receiver) s room h)
    | inr full ↦ rw full h
  ]

  if-IsCapped :
      (b : Bool) (x y : HevcDecoder F)
      → (b ≡ true → IsCapped x)
      → (b ≡ false → IsCapped y)
      → IsCapped (if b then x else y)
  if-IsCapped true x y h k = h refl
  if-IsCapped false x y h k = k refl

  decode_round-IsCapped :
      (a : Answers) (s : HevcDecoder F) → IsCapped s → IsCapped (decode_round to_ms a s)
  unfolding decode_round
  decode_round-IsCapped a s h =
      let (fewer, same) = drain_outputs-fewer a.outputs s in
      let drained_too : IsCapped (drain_outputs to_ms a.outputs s) = (omega arith, omega arith) in
      if-IsCapped (not s.running) _ _ (λ e. h)
        λ e.
          if-IsCapped (leb 2 (length s.queued_ns)) _ _ (λ g. drained_too)
            λ free.
              feed_input-IsCapped a (drain_outputs to_ms a.outputs s)
                (omega (arith, leb→lt 2 (length s.queued_ns) free)) drained_too

  -- From a state with at most two entries in the map of queued frames and at most two as the metrics'
  -- most in flight, both stay at most two after any rounds of the decode loop, whatever the codec
  -- answers in each.
  pub decode_loop-IsCapped :
      (as' : List Answers) (s : HevcDecoder F) → IsCapped s → IsCapped (decode_loop to_ms as' s)
  unfolding decode_loop
  decode_loop-IsCapped [] s h = h
  decode_loop-IsCapped (a ∷ as') s h =
      decode_loop-IsCapped as' (decode_round to_ms a s) (decode_round-IsCapped a s h)
