-- ===== src/Handles.antt =====
-- The handles that the code takes from a library, as a protocol: what is given back or used was taken
-- before and not yet given back, and a handle is not taken again while it is held.
use loom_client.Common.{
  ℕ, suc, ◌+◌, arith, ltb, ◌==◌, Bool, false, ◌||◌, Option, none, some, List, [], ◌∷◌, ◌++◌,
  if◌then◌else◌, ◌≡◌, refl, sym,
}

-- A call of the library, by the number of the handle it is about; `null_call` is one that is handed
-- a null pointer in place of the handle.
pub data HandleCall : Type 0 where
  take_handle give_handle use_handle null_call : ℕ → HandleCall

abbrev pub is_held : ℕ → List ℕ → Bool
is_held k [] = false
is_held k (h ∷ hs) = (h == k) || is_held k hs

-- The handles that are held, in ascending order.
abbrev pub hold : ℕ → List ℕ → List ℕ
hold k [] = k ∷ []
hold k (h ∷ hs) = if ltb k h then k ∷ h ∷ hs else h ∷ hold k hs

abbrev pub drop_handle : ℕ → List ℕ → List ℕ
drop_handle k [] = []
drop_handle k (h ∷ hs) = if h == k then hs else h ∷ drop_handle k hs

abbrev pub follow : HandleCall → List ℕ → Option (List ℕ)
follow (take_handle k) held = if is_held k held then none else some (hold k held)
follow (give_handle k) held = if is_held k held then some (drop_handle k held) else none
follow (use_handle k) held = if is_held k held then some held else none
follow (null_call k) held = some held

-- How many calls are handed a null pointer.
abbrev pub nulls : List HandleCall → ℕ
nulls [] = 0
nulls (null_call k ∷ cs) = suc (nulls cs)
nulls (_ ∷ cs) = nulls cs

pub nulls-append : (a b : List HandleCall) → nulls (a ++ b) ≡ nulls a + nulls b
nulls-append [] b = omega arith
nulls-append (take_handle k ∷ a) b = nulls-append a b
nulls-append (give_handle k ∷ a) b = nulls-append a b
nulls-append (use_handle k ∷ a) b = nulls-append a b
nulls-append (null_call k ∷ a) b = omega (arith, nulls-append a b)

-- What is held after the calls, if each of them is allowed.
abbrev pub replay : List HandleCall → Option (List ℕ) → Option (List ℕ)
replay [] held = held
replay (c ∷ cs) none = none
replay (c ∷ cs) (some held) = replay cs (follow c held)

replay-none : (cs : List HandleCall) → replay cs none ≡ none
replay-none [] = refl
replay-none (c ∷ cs) = refl

pub replay-append :
    (a b : List HandleCall) (held : Option (List ℕ))
    → replay (a ++ b) held ≡ replay b (replay a held)
replay-append [] b held = refl
replay-append (c ∷ cs) b none = sym (replay-none b)
replay-append (c ∷ cs) b (some held) = replay-append cs b (follow c held)
