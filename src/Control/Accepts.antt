-- ===== src/Control/Accepts.antt =====
-- proto/src/control.cpp: what a decoded frame is, which bytes it depends on, and which frames are
-- refused.
use mathlib.Core.List.{Mem, mem-cons_self, mem-cons_of_mem}
use loom_client.Common.{
  eqb_ℤ, eqb_ℤ→eq, true≢false, sym, ℕ, ◌+◌, ◌-◌, ◌≤◌, ℤ, pos, ◌≡◌, refl, subst, ◌⊎◌, arith, Bool,
  true, false, Option, none, some, List, [], ◌∷◌, ◌++◌, length, length-append, length-drop, take,
  drop, take-append_le, drop-append_le, ltb, if◌then◌else◌, Bool-cases, inl, inr,
}
use loom_client.Result.{Result, ok, err}
use loom_client.Cbor.{Value, Fields, integer, array, map, no_items, item, no_fields, field}
use loom_client.Control.{
  contains, Decoded, ControlError, message, ignored, known_keys, is_allowed, filter_known,
  registered, decode_frame, open_envelope, frame_len,
}

-- The key is an integer of the list.
abbrev pub IsAmong : List ℤ → Value → Type 0
IsAmong allowed (integer k) = Mem k allowed
IsAmong allowed _ = ⊥

contains-Mem : (allowed : List ℤ) (k : ℤ) → contains allowed k ≡ true → Mem k allowed
unfolding contains
contains-Mem [] k h = cc
contains-Mem (x ∷ keys) k h = elim (Bool-cases (eqb_ℤ x k)) [
  | inl t ↦ subst (λ y. Mem k (y ∷ keys)) (sym (eqb_ℤ→eq x k t)) mem-cons_self
  | inr t ↦ mem-cons_of_mem x (contains-Mem keys k (rw t at h))
]

is_allowed-IsAmong :
    (allowed : List ℤ) (k : Value) → is_allowed allowed k ≡ true → IsAmong allowed k
is_allowed-IsAmong allowed (integer k) h = contains-Mem allowed k h
is_allowed-IsAmong allowed _ h = absurd (true≢false (sym h))

-- Every key of the map is an integer of the list.
abbrev pub HasKeys : List ℤ → Fields → Type 0
HasKeys allowed no_fields = Unit {0}
HasKeys allowed (field k v fs) = IsAmong allowed k × HasKeys allowed fs

filter_known-HasKeys : (allowed : List ℤ) (m : Fields) → HasKeys allowed (filter_known allowed m)
unfolding filter_known
filter_known-HasKeys allowed no_fields = tt
filter_known-HasKeys allowed (field k v fs) = elim (Bool-cases (is_allowed allowed k)) [
  | inl t ↦ rw t (is_allowed-IsAmong allowed k t, filter_known-HasKeys allowed fs)
  | inr t ↦ rw t (filter_known-HasKeys allowed fs)
]

-- A message has a registered type and only keys that the registry knows for it; what is not
-- registered is ignored with an empty body.
abbrev pub IsClean : Decoded → Type 0
IsClean d =
    ((allowed : List ℤ) × (d.kind ≡ message)
      × (known_keys d.msg_type ≡ some allowed)
      × HasKeys allowed d.body)
    ⊎ ((d.kind ≡ ignored) × (d.body ≡ no_fields))

registered-IsClean :
    (t : ℕ) (m : Fields) (o : Option (List ℤ)) → known_keys t ≡ o → IsClean (registered t m o)
registered-IsClean t m none e = inr (refl, refl)
registered-IsClean t m (some allowed) e = inl (allowed, refl, e, filter_known-HasKeys allowed m)

abbrev CleanResult : Result Decoded ControlError → Type 0
CleanResult (ok d) = IsClean d
CleanResult (err e) = Unit {0}

open_envelope-clean : (o : Option Value) → CleanResult (open_envelope o)
unfolding open_envelope
open_envelope-clean none = tt
open_envelope-clean (some (array (item (integer (pos t)) (item (map m) no_items)))) =
    registered-IsClean t m (known_keys t) refl
open_envelope-clean (some _) = tt

CleanResult-if :
    (t : Bool) (r s : Result Decoded ControlError)
    → CleanResult r
    → CleanResult s
    → CleanResult (if t then r else s)
CleanResult-if true r s hr hs = hr
CleanResult-if false r s hr hs = hs

decode_frame-clean : (b : List ℕ) → CleanResult (decode_frame b)
unfolding decode_frame
decode_frame-clean b = CleanResult-if (ltb (length b) 4) _ _ tt (
    CleanResult-if (ltb 65536 (frame_len b)) _ _ tt
      (CleanResult-if (ltb (length b - 4) (frame_len b)) _ _ tt (open_envelope-clean _)))

-- What `decode_frame` accepts is a message of a registered type whose body has only the integer
-- keys that the registry lists for the type, or is ignored and carries no body.
pub decode_frame-IsClean : (b : List ℕ) (d : Decoded) → decode_frame b ≡ ok d → IsClean d
decode_frame-IsClean b d e = subst CleanResult e (decode_frame-clean b)

pub frame_len-append : (b rest : List ℕ) → 4 ≤ length b → frame_len (b ++ rest) ≡ frame_len b
frame_len-append (w ∷ x ∷ y ∷ z ∷ b) rest h = refl
frame_len-append [] rest h = absurd (omega arith)
frame_len-append (w ∷ []) rest h = absurd (omega arith)
frame_len-append (w ∷ x ∷ []) rest h = absurd (omega arith)
frame_len-append (w ∷ x ∷ y ∷ []) rest h = absurd (omega arith)

-- `decode_frame` reads the four bytes and as many as they announce: bytes behind a whole frame
-- change nothing.
pub decode_frame-append :
    (b rest : List ℕ)
    → 4 ≤ length b
    → frame_len b + 4 ≤ length b
    → decode_frame (b ++ rest) ≡ decode_frame b
unfolding decode_frame
decode_frame-append b rest h fits =
    let cut : take (frame_len b) (drop 4 (b ++ rest)) ≡ take (frame_len b) (drop 4 b) =
      rw (drop-append_le 4 b rest h)
        (take-append_le (frame_len b) (drop 4 b) rest (omega (arith, length-drop 4 b))) in
    rw (frame_len-append b rest h, cut) (ground (arith, length-append b rest))
