-- ===== src/Reassembly/Events.antt =====
-- proto/src/reassembly.cpp: predicates on the list of events: what the decoder was given (rule 3)
-- and what was asked of the host (section 3.6).
use loom_client.Common.{
  ℕ, ℤ, pos, negsuc, ◌-ℤ◌, ◌≤ℤ◌, ◌<ℤ◌, ◌≡◌, refl, Bool, true, false, Option, none, some, List, [],
  ◌∷◌, ◌++◌,
}
use loom_client.Reassembly.{Event, deliver_event, idr_request}

-- `seq` may be handed to the decoder after `last`: a keyframe if it is newer, any other frame if it
-- is the very next one.
abbrev pub MayFollow : Option ℤ → ℕ → Bool → Type 0
MayFollow none seq true = Unit {0}
MayFollow (some last) seq true = last <ℤ pos seq
MayFollow last seq false = last ≡ some (pos seq -ℤ pos 1)

-- The newest decoded frame, or 0.
abbrev pub good : Option ℤ → ℕ
good none = 0
good (some (pos n)) = n
good (some (negsuc n)) = 0

-- From `last` on, the deliveries are in order and each request names the newest decoded frame.
abbrev pub Gated : Option ℤ → List Event → Type 0
Gated last [] = Unit {0}
Gated last (idr_request t g ∷ es) = (g ≡ good last) × Gated last es
Gated last (deliver_event t seq k ∷ es) = MayFollow last seq k × Gated (some (pos seq)) es

abbrev pub last_delivered : Option ℤ → List Event → Option ℤ
last_delivered last [] = last
last_delivered last (idr_request t g ∷ es) = last_delivered last es
last_delivered last (deliver_event t seq k ∷ es) = last_delivered (some (pos seq)) es

-- From a request at `last` on, requests are at least 250 ms apart.
abbrev pub MayAsk : Option ℤ → ℤ → Type 0
MayAsk none t = Unit {0}
MayAsk (some last) t = pos 250 ≤ℤ t -ℤ last

abbrev pub Spaced : Option ℤ → List Event → Type 0
Spaced last [] = Unit {0}
Spaced last (idr_request t g ∷ es) = MayAsk last t × Spaced (some t) es
Spaced last (deliver_event t seq k ∷ es) = Spaced last es

abbrev pub last_asked : Option ℤ → List Event → Option ℤ
last_asked last [] = last
last_asked last (idr_request t g ∷ es) = last_asked (some t) es
last_asked last (deliver_event t seq k ∷ es) = last_asked last es

-- One event more at the end.
pub Gated-deliver :
    (last : Option ℤ) (es : List Event) (t : ℤ) (seq : ℕ) (k : Bool)
    → Gated last es
    → MayFollow (last_delivered last es) seq k
    → Gated last (es ++ deliver_event t seq k ∷ [])
      × (last_delivered last (es ++ deliver_event t seq k ∷ []) ≡ some (pos seq))
Gated-deliver last [] t seq k h m = ((m, tt), refl)
Gated-deliver last (idr_request t' g ∷ es) t seq k h m =
    let (x, y) = Gated-deliver last es t seq k h.1 m in ((h.0, x), y)
Gated-deliver last (deliver_event t' s k' ∷ es) t seq k h m =
    let (x, y) = Gated-deliver (some (pos s)) es t seq k h.1 m in ((h.0, x), y)

pub Gated-ask :
    (last : Option ℤ) (es : List Event) (t : ℤ) (g : ℕ)
    → Gated last es
    → g ≡ good (last_delivered last es)
    → Gated last (es ++ idr_request t g ∷ [])
      × (last_delivered last (es ++ idr_request t g ∷ []) ≡ last_delivered last es)
Gated-ask last [] t g h e = ((e, tt), refl)
Gated-ask last (idr_request t' g' ∷ es) t g h e =
    let (x, y) = Gated-ask last es t g h.1 e in ((h.0, x), y)
Gated-ask last (deliver_event t' s k ∷ es) t g h e =
    let (x, y) = Gated-ask (some (pos s)) es t g h.1 e in ((h.0, x), y)

pub Spaced-deliver :
    (last : Option ℤ) (es : List Event) (t : ℤ) (seq : ℕ) (k : Bool)
    → Spaced last es
    → Spaced last (es ++ deliver_event t seq k ∷ [])
      × (last_asked last (es ++ deliver_event t seq k ∷ []) ≡ last_asked last es)
Spaced-deliver last [] t seq k h = (tt, refl)
Spaced-deliver last (idr_request t' g ∷ es) t seq k h =
    let (x, y) = Spaced-deliver (some t') es t seq k h.1 in ((h.0, x), y)
Spaced-deliver last (deliver_event t' s k' ∷ es) t seq k h = Spaced-deliver last es t seq k h

pub Spaced-ask :
    (last : Option ℤ) (es : List Event) (t : ℤ) (g : ℕ)
    → Spaced last es
    → MayAsk (last_asked last es) t
    → Spaced last (es ++ idr_request t g ∷ [])
      × (last_asked last (es ++ idr_request t g ∷ []) ≡ some t)
Spaced-ask last [] t g h m = ((m, tt), refl)
Spaced-ask last (idr_request t' g' ∷ es) t g h m =
    let (x, y) = Spaced-ask (some t') es t g h.1 m in ((h.0, x), y)
Spaced-ask last (deliver_event t' s k ∷ es) t g h m = Spaced-ask last es t g h m
