-- ===== src/HevcDecoder/Inputs.antt =====
-- quest/src/hevc_decoder.cpp: what the codec is given.
use loom_client.Common.{
  zero, suc, ◌&&◌, take, drop, append-nil, Bool-cases, inl, inr, ℕ, ◌≤◌, ℤ, ◌≡◌, refl, sym, ◌∙◌, ap,
  subst, arith, Bool, true, false, not, Option, none, some, List, [], ◌∷◌, ◌++◌, map, append_assoc,
  All, length, ltb, leb, le→ltb, if◌then◌else◌,
}
use loom_client.VideoReceiver.{AccessUnit, waits, drained, pop_from, pop_au}
use loom_client.HevcDecoder.{
  HevcDecoder, Output, Answers, find_queued, measure, render, drain_outputs, try_input, feed_popped,
  feed_input, decode_round, decode_loop,
}

-- What the codec gets of a unit: its bytes and its presentation time.
abbrev pub as_input : AccessUnit → List ℕ × ℕ
as_input au = (au.au_data, au.capture_ts)

-- The buffer of a round holds `n` bytes.
abbrev pub IsRoomy : ℕ → Answers → Type 0
IsRoomy n a = (c : ℕ) × (a.capacity ≡ some c) × (n ≤ c)

abbrev pub IsSmall : ℕ → AccessUnit → Type 0
IsSmall n au = length au.au_data ≤ n

-- In a round that finds the loop running, a free slot and fewer than two frames in flight, a unit has
-- its turn.
abbrev has_turn : {F : Type 0} → Answers → HevcDecoder F → Bool
has_turn a s = s.running && a.has_slot && not (leb 2 (length s.queued_ns))

abbrev pub waiting : {F : Type 0} → HevcDecoder F → List (List ℕ × ℕ)
waiting s = map as_input s.receiver.au_queue

-- The first `k` units of those that wait in `s` went to the codec, in their order, and the others
-- wait in `t`.
abbrev pub Gave : {F : Type 0} → ℕ → HevcDecoder F → HevcDecoder F → Type 0
Gave k s t =
    (t.codec_inputs ≡ s.codec_inputs ++ take k (waiting s)) × (waiting t ≡ drop k (waiting s))

take-drop_one :
    {A : Type 0} (k : ℕ) (xs : List A) → take 1 xs ++ take k (drop 1 xs) ≡ take (suc k) xs
take-drop_one zero [] = refl
take-drop_one (suc k) [] = refl
take-drop_one k (x ∷ xs) = refl

drop-drop_one : {A : Type 0} (k : ℕ) (xs : List A) → drop k (drop 1 xs) ≡ drop (suc k) xs
drop-drop_one zero [] = refl
drop-drop_one (suc k) [] = refl
drop-drop_one k (x ∷ xs) = refl

module _ {F : Type 0} (to_ms : ℤ → F) where
  -- How many turns the rounds give.
  abbrev pub turns : List Answers → HevcDecoder F → ℕ
  turns [] s = 0
  turns (a ∷ as') s =
      let rest = turns as' (decode_round to_ms a s) in if has_turn a s then suc rest else rest

  Gave-refl : (s : HevcDecoder F) → Gave 0 s s
  Gave-refl s = (sym (append-nil s.codec_inputs), refl)

  Gave-later : (k : ℕ) (s t u : HevcDecoder F) → Gave 0 s t → Gave k t u → Gave k s u
  Gave-later k s t u (given, left) (more, after) = (
    more
        ∙ ap (λ l. l ++ take k (waiting t)) (given ∙ append-nil s.codec_inputs)
        ∙ ap (λ w. s.codec_inputs ++ take k w) left,
    after ∙ ap (drop k) left,
  )

  Gave-next : (k : ℕ) (s t u : HevcDecoder F) → Gave 1 s t → Gave k t u → Gave (suc k) s u
  Gave-next k s t u (given, left) (more, after) =
      let w = waiting s in
      (
        more
            ∙ ap (λ l. l ++ take k (waiting t)) given
            ∙ ap (λ v. (s.codec_inputs ++ take 1 w) ++ take k v) left
            ∙ append_assoc s.codec_inputs (take 1 w) (take k (drop 1 w))
            ∙ ap (λ l. s.codec_inputs ++ l) (take-drop_one k w),
        after ∙ ap (drop k) left ∙ drop-drop_one k w,
      )

  -- What waits is still small.
  abbrev KeepsSmall : ℕ → HevcDecoder F → Type 0
  KeepsSmall n s = All (IsSmall n) s.receiver.au_queue

  measure-receiver :
      (out : Output) (o : Option ℤ) (s : HevcDecoder F)
      → ((measure to_ms out o s).receiver ≡ s.receiver)
        × ((measure to_ms out o s).codec_inputs ≡ s.codec_inputs)
  measure-receiver out none s = (refl, refl)
  measure-receiver out (some q) s = (refl, refl)

  drain_outputs-receiver :
      (outs : List Output) (s : HevcDecoder F)
      → ((drain_outputs to_ms outs s).receiver ≡ s.receiver)
        × ((drain_outputs to_ms outs s).codec_inputs ≡ s.codec_inputs)
  unfolding drain_outputs
  drain_outputs-receiver [] s = (refl, refl)
  drain_outputs-receiver (out ∷ outs) s =
      let o = find_queued out.pts s.queued_ns in
      let (r, c) = measure-receiver out o s in
      let (r', c') = drain_outputs-receiver outs (render to_ms (measure to_ms out o s)) in
      (r' ∙ r, c' ∙ c)

  drain_outputs-Gave :
      (outs : List Output) (s : HevcDecoder F) → Gave 0 s (drain_outputs to_ms outs s)
  drain_outputs-Gave outs s =
      let (r, c) = drain_outputs-receiver outs s in
      (c ∙ sym (append-nil s.codec_inputs), ap (λ v. map as_input v.au_queue) r)

  try_input-Gave :
      (n c : ℕ) (au : AccessUnit) (q : List AccessUnit) (t : ℤ) (s : HevcDecoder F)
      → s.receiver.au_queue ≡ au ∷ q
      → n ≤ c
      → All (IsSmall n) (au ∷ q)
      → let s' =
          try_input to_ms
            (some c)
            au
            t
            (record s { receiver = record s.receiver { au_queue = q } }) in
        Gave 1 s s' × KeepsSmall n s'
  try_input-Gave n c au q t s e enough (small, rest) =
      let fits : ltb c (length au.au_data) ≡ false = le→ltb c (length au.au_data) (omega arith) in
      rw fits (
        (
          ap (λ l. s.codec_inputs ++ take 1 (map as_input l)) (sym e),
          ap (λ l. drop 1 (map as_input l)) (sym e),
        ),
        rest,
      )

  -- The unit that is popped fits, and goes to the codec.
  pop_from-Gave :
      (n : ℕ) (q : List AccessUnit) (a : Answers) (s : HevcDecoder F)
      → s.receiver.au_queue ≡ q
      → IsRoomy n a
      → All (IsSmall n) q
      → let s' = feed_popped to_ms a (pop_from q s.receiver) s in Gave 1 s s' × KeepsSmall n s'
  pop_from-Gave n [] a s e roomy h = go s.receiver.stopped
    where
      small : All (IsSmall n) s.receiver.au_queue
      small = subst (All (IsSmall n)) (sym e) tt

      none_left : Gave 1 s s
      none_left = (
        sym (append-nil s.codec_inputs)
            ∙ ap (λ l. s.codec_inputs ++ take 1 (map as_input l)) (sym e),
        ap (map as_input) e ∙ ap (λ l. drop 1 (map as_input l)) (sym e),
      )

      go :
          (b : Bool)
          → let s' = feed_popped to_ms a (if b then drained else waits, s.receiver) s in
            Gave 1 s s' × KeepsSmall n s'
      go true = (none_left, small)
      go false = (none_left, small)
  pop_from-Gave n (au ∷ q) a s e (c, room, enough) h =
      subst
        (λ o.
          let s' =
            try_input to_ms o au a.now_ns
              (record s { receiver = record s.receiver { au_queue = q } }) in
          Gave 1 s s' × KeepsSmall n s')
        (sym room) (try_input-Gave n c au q a.now_ns s e enough h)

  decode_round-Gave :
      (n : ℕ) (a : Answers) (s : HevcDecoder F)
      → IsRoomy n a
      → KeepsSmall n s
      → let s' = decode_round to_ms a s in
        Gave (if has_turn a s then 1 else 0) s s' × KeepsSmall n s'
  unfolding decode_round feed_input pop_au
  decode_round-Gave n a s roomy h = go s.running (leb 2 (length s.queued_ns)) a.has_slot
    where
      s1 : HevcDecoder F
      s1 = drain_outputs to_ms a.outputs s

      small : KeepsSmall n s1
      small = subst (λ r. All (IsSmall n) r.au_queue) (sym (drain_outputs-receiver a.outputs s).0) h

      fed : HevcDecoder F
      fed = feed_popped to_ms a (pop_from s1.receiver.au_queue s1.receiver) s1

      go :
          (running gated slot : Bool)
          → let s' =
              if not running then s else if gated then s1 else if not slot then s1 else fed in
            Gave (if running && slot && not gated then 1 else 0) s s' × KeepsSmall n s'
      go false gated slot = (Gave-refl s, h)
      go true true true = (drain_outputs-Gave a.outputs s, small)
      go true true false = (drain_outputs-Gave a.outputs s, small)
      go true false false = (drain_outputs-Gave a.outputs s, small)
      go true false true =
          let (gave, rest) = pop_from-Gave n s1.receiver.au_queue a s1 refl roomy small in
          (Gave-later 1 s s1 fed (drain_outputs-Gave a.outputs s) gave, rest)

  -- The receiver's queue holds units of at most `n` bytes, and every buffer of the codec holds `n`
  -- bytes. Over any rounds of the loop, count those that find it running, a free slot of the codec
  -- and fewer than two frames in flight. Then as many of the units that wait, or all if there are
  -- fewer, have gone to the codec behind its earlier inputs, the first one first, and the others
  -- still wait: each such round gives one unit, no other does, and none is lost or given twice.
  pub decode_loop-waiting :
      (n : ℕ) (as' : List Answers) (s : HevcDecoder F)
      → All (IsRoomy n) as'
      → All (IsSmall n) s.receiver.au_queue
      → let t = decode_loop to_ms as' s in
        let k = turns as' s in
        (t.codec_inputs ≡ s.codec_inputs ++ take k (waiting s)) × (waiting t ≡ drop k (waiting s))
  unfolding decode_loop
  decode_loop-waiting n [] s roomy h = Gave-refl s
  decode_loop-waiting n (a ∷ as') s (room, roomy) h =
      let s' = decode_round to_ms a s in
      let (gave, small) = decode_round-Gave n a s room h in
      let end = decode_loop to_ms as' s' in
      let rest = decode_loop-waiting n as' s' roomy small in
      elim (Bool-cases (has_turn a s)) [
        | inl t ↦ rw t (Gave-next (turns as' s') s s' end (rw t at gave) rest)
        | inr t ↦ rw t (Gave-later (turns as' s') s s' end (rw t at gave) rest)
      ]
