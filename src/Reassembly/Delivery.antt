-- ===== src/Reassembly/Delivery.antt =====
-- proto/src/reassembly.cpp: the events (rule 3 and section 3.6), as a history of what the decoder
-- was given and what was asked of the host.
use loom_client.Common.{
  ℕ, ◌+◌, ◌%◌, ◌^◌, ◌≤◌, ◌<◌, ℤ, pos, negsuc, ◌-ℤ◌, leb_ℤ, pos_part, neg_part, to_u64, eqb_ℤ→eq,
  ◌≡◌, refl, ap, ◌∙◌, ltb→le, arith, Bool, true, false, Option, none, some, List, [], ◌∷◌, length,
  ltb, ◌==◌, Bool-cases, Option-cases, inl, inr,
}
use loom_client.OrderedMap.{find}
use loom_client.Reassembly.{
  Fragment, Incomplete, Reassembler, insert_index, fresh, deliver, maybe_idr, too_soon, gate,
  follows, complete_frame, add_fragment, open_frame, make_room, push, run, new_entry, value_or_zero,
}
use loom_client.Reassembly.Window.{Inv, AtMost, floor, floor_of_fresh, push-Inv, fresh-Inv}
use loom_client.Reassembly.Events.{
  MayFollow, good, Gated, last_delivered, MayAsk, Spaced, last_asked, Gated-deliver, Gated-ask,
  Spaced-deliver, Spaced-ask,
}

abbrev IsSeq : Option ℤ → Type 0
IsSeq none = Unit {0}
IsSeq (some (pos n)) = n < 2 ^ 32
IsSeq (some (negsuc n)) = ⊥

-- The history agrees with the state.
pub record History (s : Reassembler) : Type 0 where
  pub gated : Gated none s.events
  pub delivered : last_delivered none s.events ≡ s.last_decoded
  pub spaced : Spaced none s.events
  pub asked : last_asked none s.events ≡ s.idr_last_t
  pub is_seq : IsSeq s.last_decoded

deliver-History :
    (t : ℤ) (seq : ℕ) (k : Bool) (s : Reassembler)
    → seq < 2 ^ 32
    → MayFollow s.last_decoded seq k
    → History s
    → History (deliver t seq k s)
unfolding deliver
deliver-History t seq k s fits may h =
    let (g, d) = Gated-deliver none s.events t seq k h.gated (rw h.delivered may) in
    let (p, a) = Spaced-deliver none s.events t seq k h.spaced in
    record { gated = g; delivered = d; spaced = p; asked = a ∙ h.asked; is_seq = fits }

too_soon→MayAsk : (t : ℤ) (o : Option ℤ) → too_soon t o ≡ false → MayAsk o t
unfolding too_soon
too_soon→MayAsk t none h = tt
too_soon→MayAsk t (some last) h =
    omega (arith, ltb→le (pos_part (t -ℤ last) + 0) (250 + neg_part (t -ℤ last)) h)

good_of_last : (o : Option ℤ) → IsSeq o → to_u64 (value_or_zero o) % 2 ^ 32 ≡ good o
good_of_last none h = refl
good_of_last (some (pos n)) h = omega arith
good_of_last (some (negsuc n)) h = absurd h

maybe_idr-History : (t : ℤ) (s : Reassembler) → History s → History (maybe_idr t s)
unfolding maybe_idr
maybe_idr-History t s h = elim (Bool-cases (too_soon t s.idr_last_t)) [
  | inl soon ↦ rw soon h
  | inr late ↦
      let g = to_u64 (value_or_zero s.last_decoded) % 2 ^ 32 in
      let names : g ≡ good (last_delivered none s.events) =
        rw h.delivered (good_of_last s.last_decoded h.is_seq) in
      let (x, d) = Gated-ask none s.events t g h.gated names in
      let (p, a) =
        Spaced-ask none s.events t g h.spaced (rw h.asked (too_soon→MayAsk t s.idr_last_t late)) in
      rw late (record {
        gated = x;
        delivered = d ∙ h.delivered;
        spaced = p;
        asked = a;
        is_seq = h.is_seq;
      })
]

follows→MayFollow : (o : Option ℤ) (seq : ℕ) → follows o seq ≡ true → MayFollow o seq false
unfolding follows
follows→MayFollow none seq h = cc
follows→MayFollow (some last) seq h = ap some (eqb_ℤ→eq last (pos seq -ℤ pos 1) h)

-- The history is that of three fields.
History-same :
    (s s' : Reassembler)
    → s'.events ≡ s.events
    → s'.last_decoded ≡ s.last_decoded
    → s'.idr_last_t ≡ s.idr_last_t
    → History s
    → History s'
History-same s s' e l i h = record {
  gated = rw e h.gated;
  delivered = rw (e, l) h.delivered;
  spaced = rw e h.spaced;
  asked = rw (e, i) h.asked;
  is_seq = rw l h.is_seq;
}

gate-History :
    (t : ℤ) (seq : ℕ) (k : Bool) (s : Reassembler)
    → seq < 2 ^ 32
    → MayFollow s.last_decoded seq true
    → History s
    → History (gate t seq k s)
unfolding gate
gate-History t seq true s fits newer h = deliver-History t seq true s fits newer h
gate-History t seq false s fits newer h = elim (Bool-cases (follows s.last_decoded seq)) [
  | inl next ↦
      rw next (deliver-History t seq false s fits (follows→MayFollow s.last_decoded seq next) h)
  | inr gap ↦ rw gap (maybe_idr-History t _ (History-same s _ refl refl refl h))
]

complete_frame-History :
    (t : ℤ) (seq : ℕ) (k : Bool) (s : Reassembler)
    → seq < 2 ^ 32
    → MayFollow s.last_decoded seq true
    → History s
    → History (complete_frame t seq k s)
unfolding complete_frame
complete_frame-History t seq k s fits newer h =
    gate-History t seq k _ fits newer (History-same s _ refl refl refl h)

module _ (t : ℤ) (frag : Fragment) (fits : frag.frame_seq < 2 ^ 32) where
  add_fragment-History :
      (entry : Incomplete) (s : Reassembler)
      → MayFollow s.last_decoded frag.frame_seq true
      → History s
      → History (add_fragment t frag entry s)
  unfolding add_fragment
  add_fragment-History entry s newer h =
      elim (Bool-cases (length (insert_index frag.frag_index entry.have) == entry.need)) [
        | inl full ↦ rw full (
            complete_frame-History t frag.frame_seq entry.keyframe _ fits newer
              (History-same s _ refl refl refl h))
        | inr short ↦ rw short (History-same s _ refl refl refl h)
      ]

  open_frame-History :
      (s : Reassembler)
      → MayFollow s.last_decoded frag.frame_seq true
      → History s
      → History (open_frame t frag s)
  unfolding open_frame
  open_frame-History s newer h =
      add_fragment-History (new_entry frag) _ newer (History-same s _ refl refl refl h)

  make_room-History :
      (m : List (ℕ × Incomplete)) (s : Reassembler)
      → MayFollow s.last_decoded frag.frame_seq true
      → History s
      → History (make_room t frag m s)
  unfolding make_room
  make_room-History [] s newer h = open_frame-History s newer h
  make_room-History (x ∷ []) s newer h = open_frame-History s newer h
  make_room-History ((oldest, x) ∷ y ∷ m) s newer h =
      elim (Bool-cases (ltb oldest frag.frame_seq)) [
        | inl e ↦ rw e (open_frame-History _ newer (History-same s _ refl refl refl h))
        | inr e ↦ rw e (History-same s _ refl refl refl h)
      ]

  newer_of_Inv :
      (n : ℤ) (last : Option ℤ)
      → AtMost last n
      → floor n ≤ frag.frame_seq
      → MayFollow last frag.frame_seq true
  newer_of_Inv n none a h = tt
  newer_of_Inv (pos n) (some l) a h = omega arith
  newer_of_Inv (negsuc n) (some l) a h = omega arith

  push-History : (s : Reassembler) → Inv s → History s → History (push t frag s)
  unfolding push
  push-History s v h = elim (Bool-cases (leb_ℤ (pos frag.frame_seq) s.newest_complete)) [
    | inl stale ↦ rw stale (History-same s _ refl refl refl h)
    | inr new ↦
        let newer =
          newer_of_Inv s.newest_complete s.last_decoded v.decoded
            (floor_of_fresh frag.frame_seq s.newest_complete new) in
        elim (Option-cases (find frag.frame_seq s.incomplete)) [
          | inl absent ↦ rw (new, absent) (make_room-History s.incomplete s newer h)
          | inr (entry, there) ↦ rw (new, there) (add_fragment-History entry s newer h)
        ]
  ]

-- The sequence numbers are those of a uint32_t.
abbrev pub AllSeq : List (ℤ × Fragment) → Type 0
AllSeq [] = Unit {0}
AllSeq ((t, f) ∷ fs) = (f.frame_seq < 2 ^ 32) × AllSeq fs

run-History :
    (fs : List (ℤ × Fragment)) (s : Reassembler)
    → AllSeq fs
    → Inv s
    → History s
    → History (run fs s)
unfolding run
run-History [] s a v h = h
run-History ((t, f) ∷ fs) s a v h =
    run-History fs (push t f s) a.1 (push-Inv t f s v) (push-History t f a.0 s v h)

fresh-History : History fresh
unfolding fresh
fresh-History = record { gated = tt; delivered = refl; spaced = tt; asked = refl; is_seq = tt }

-- Over any run, with uint32_t sequence numbers: every frame that is handed to the decoder is newer
-- than the one before, and one that is no keyframe is its immediate successor; every IDR request
-- names the newest frame decoded by then, or 0.
pub run-Gated : (fs : List (ℤ × Fragment)) → AllSeq fs → Gated none (run fs fresh).events
run-Gated fs a = (run-History fs fresh a fresh-Inv fresh-History).gated

-- Over any run, two IDR requests in a row are at least 250 ms apart.
pub run-Spaced : (fs : List (ℤ × Fragment)) → AllSeq fs → Spaced none (run fs fresh).events
run-Spaced fs a = (run-History fs fresh a fresh-Inv fresh-History).spaced
