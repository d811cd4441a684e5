-- ===== src/VideoReceiver/Requests.antt =====
-- core/src/video_receiver.cpp: the rate limit of the IDR requests (section 3.6).
use loom_client.Common.{
  ℕ, ℤ, pos, negsuc, ◌-ℤ◌, ◌≤ℤ◌, leb_ℤ, ltb_ℤ, ◌≡◌, refl, arith, Bool, false, not, ◌&&◌, Bool-cases,
  length, leb, inl, inr, Option, none, some, List, [], ◌∷◌, ◌++◌,
}
use loom_client.Reassembly.Events.{MayAsk}
use loom_client.VideoReceiver.{
  VideoReceiver, AccessUnit, Call, feed, pop, stop_call, resume_call, new_receiver, request_idr,
  drop_stale, enqueue, hand_off, pop_au, feed_datagram, stop, resume, run, pop_from,
}
use loom_client.VideoReceiver.Induction.{feed_datagram-keeps}

-- From a call of `on_idr_` at `last` on, the calls are at least 250 ms apart.
abbrev pub AreSpaced : Option ℤ → List (ℤ × ℕ) → Type 0
AreSpaced last [] = Unit {0}
AreSpaced last ((t, g) ∷ cs) = MayAsk last t × AreSpaced (some t) cs

abbrev pub last_time : Option ℤ → List (ℤ × ℕ) → Option ℤ
last_time last [] = last
last_time last ((t, g) ∷ cs) = last_time (some t) cs

-- `last_idr_request_ms_`, where a number below 0 is no time.
abbrev pub time_of : ℤ → Option ℤ
time_of (pos n) = some (pos n)
time_of (negsuc n) = none

AreSpaced-append :
    (last : Option ℤ) (cs : List (ℤ × ℕ)) (t : ℤ) (g : ℕ)
    → AreSpaced last cs
    → MayAsk (last_time last cs) t
    → AreSpaced last (cs ++ (t, g) ∷ []) × (last_time last (cs ++ (t, g) ∷ []) ≡ some t)
AreSpaced-append last [] t g h m = ((m, tt), refl)
AreSpaced-append last ((u, f) ∷ cs) t g h m =
    let (x, y) = AreSpaced-append (some u) cs t g h.1 m in ((h.0, x), y)

-- The log of the calls is spaced, and `last_idr_request_ms_` is the time of the last one.
abbrev pub Limited : VideoReceiver → Type 0
Limited s =
    AreSpaced none s.requested × (last_time none s.requested ≡ time_of s.last_idr_request_ms)

pub new_receiver-Limited : (b : Bool) (i : ℕ) → Limited (new_receiver b i)
unfolding new_receiver
new_receiver-Limited b i = (tt, refl)

may_ask : (l t : ℤ) → (leb_ℤ (pos 0) l && ltb_ℤ (t -ℤ l) (pos 250)) ≡ false → MayAsk (time_of l) t
unfolding ◌-ℤ◌
may_ask (pos n) t h = ground arith
may_ask (negsuc n) t h = tt

request_idr-Limited : (n g : ℕ) (s : VideoReceiver) → Limited s → Limited (request_idr g (pos n) s)
unfolding request_idr
request_idr-Limited n g s h =
    let last = s.last_idr_request_ms in
    elim (Bool-cases s.has_on_idr) [
      | inr unset ↦ rw unset h
      | inl set ↦ elim (Bool-cases (leb_ℤ (pos 0) last && ltb_ℤ (pos n -ℤ last) (pos 250))) [
        | inl early ↦ rw (set, early) h
        | inr late ↦
            rw (set, late)
              (AreSpaced-append none s.requested (pos n) g h.0 (rw h.1 (may_ask last (pos n) late)))
      ]
    ]

drop_stale-Limited : (s : VideoReceiver) → Limited s → Limited (drop_stale s)
unfolding drop_stale
drop_stale-Limited s h = elim (Bool-cases (leb 2 (length s.au_queue))) [
  | inl full ↦ rw full h
  | inr room ↦ rw room h
]

hand_off-Limited :
    (n seq : ℕ) (au : AccessUnit) (s : VideoReceiver)
    → Limited s
    → Limited (hand_off seq au (pos n) s)
unfolding hand_off enqueue
hand_off-Limited n seq au s h =
    let s1 = drop_stale s in
    let h1 = drop_stale-Limited s h in
    elim (Bool-cases (s1.awaiting_keyframe && not au.keyframe)) [
      | inl broken ↦ rw broken (request_idr-Limited n _ _ h1)
      | inr whole ↦ rw whole h1
    ]

pop_from-Limited : (q : List AccessUnit) (s : VideoReceiver) → Limited s → Limited (pop_from q s).1
pop_from-Limited [] s h = h
pop_from-Limited (au ∷ q) s h = h

-- The client's clock is monotonic from 0 on: no time is negative.
abbrev pub IsTimed : List Call → Type 0
IsTimed [] = Unit {0}
IsTimed (feed d t ∷ cs) = (pos 0 ≤ℤ t) × IsTimed cs
IsTimed (_ ∷ cs) = IsTimed cs

feed-Limited :
    (d : List ℕ) (t : ℤ) (s : VideoReceiver)
    → pos 0 ≤ℤ t
    → Limited s
    → Limited (feed_datagram d t s)
feed-Limited d (pos n) s e h =
    feed_datagram-keeps Limited (pos n) (λ c r k m s' x. x) (hand_off-Limited n)
      (request_idr-Limited n) d s h
feed-Limited d (negsuc n) s e h = absurd (omega arith)

run-Limited : (cs : List Call) (s : VideoReceiver) → IsTimed cs → Limited s → Limited (run cs s)
unfolding run pop_au stop resume
run-Limited [] s e h = h
run-Limited (feed d t ∷ cs) s e h = run-Limited cs _ e.1 (feed-Limited d t s e.0 h)
run-Limited (pop ∷ cs) s e h = run-Limited cs _ e (pop_from-Limited s.au_queue s h)
run-Limited (stop_call ∷ cs) s e h = run-Limited cs _ e h
run-Limited (resume_call ∷ cs) s e h = run-Limited cs _ e h

-- Two IDR requests that a receiver sends, for a gap or for a decoder that is too slow, are at least
-- 250 ms apart, over any calls of the two threads, where no time is negative.
pub run-AreSpaced :
    (cs : List Call) (has_on_idr : Bool) (stream_id : ℕ)
    → IsTimed cs
    → AreSpaced none (run cs (new_receiver has_on_idr stream_id)).requested
run-AreSpaced cs b i e = (run-Limited cs (new_receiver b i) e (new_receiver-Limited b i)).0
