-- ===== src/Bridge/Leaked.antt =====
-- quest-spatial/app/src/main/cpp/jni_bridge.cpp: the calls of the bridge behind the end of its thread.
use loom_client.Common.{
  subst, Option, ℕ, ◌+◌, pos, negsuc, ltb_ℤ, leb_ℤ, ◌≡◌, refl, sym, ◌∙◌, ap, arith, Bool, true,
  false, ◌||◌, List, [], ◌∷◌, ◌++◌, append-nil, append_assoc, if◌then◌else◌,
}
use loom_client.NetSession.{finished}
use loom_client.Bridge.{
  Place, starting, pumping, taking, applying, bringing_up, tearing_panels, tearing_events, Panel,
  apply_first, Answers, SurfaceEvent, new_bridge, tear_events, refs, Act, attach, detach, view,
  stop, thread, act, acts, attach_surface, detach_surface, set_viewport, ask_stop, Bridge, ended,
  run_step,
}
use loom_client.Bridge.Windows.{
  count, count-append, IsBalanced, acts-IsBalanced, owners, run_step-balance,
}

abbrev IsReturned : Bridge → Bridge → Type 0
IsReturned b c = (c.place ≡ ended) × (c.released ≡ b.released)

if-IsReturned :
    (c : Bool) (b x y : Bridge)
    → IsReturned b x
    → IsReturned b y
    → IsReturned b (if c then x else y)
if-IsReturned true b x y h k = h
if-IsReturned false b x y h k = k

act-ended : (x : Act) (b : Bridge) → IsReturned b (act x (record b { place = ended }))
unfolding attach_surface detach_surface set_viewport ask_stop run_step
act-ended (attach slot o) b = if-IsReturned (ltb_ℤ slot (pos 0)) b _ _ (refl, refl) (refl, refl)
act-ended (detach slot) b = if-IsReturned (ltb_ℤ slot (pos 0)) b _ _ (refl, refl) (refl, refl)
act-ended (view m n) b =
    if-IsReturned (leb_ℤ m (pos 0) || leb_ℤ n (pos 0)) b _ _ (refl, refl) (refl, refl)
act-ended stop b = (refl, refl)
act-ended (thread a) b = (refl, refl)

acts-released : (xs : List Act) (b : Bridge) → b.place ≡ ended → (acts xs b).released ≡ b.released
unfolding acts
acts-released [] b e = refl
acts-released (x ∷ xs) b e =
    let start : Bridge = record b { place = ended } in
    let (at, same) = act-ended x start in
    let back : act x b ≡ act x start = ap (λ p. act x (record b { place = p })) e in
    acts-released xs (act x b) (ap (λ c. c.place) back ∙ at) ∙ ap (λ c. c.released) back ∙ same

-- The windows that the calls attach, to slots that are not negative.
abbrev attached_by : Act → List ℕ
attached_by (attach (pos slot) window) = refs window
attached_by _ = []

abbrev pub attached : List Act → List ℕ
attached [] = []
attached (x ∷ xs) = attached_by x ++ attached xs

if-acquired :
    (c : Bool) (x y : Bridge) (l : List ℕ)
    → x.acquired ≡ l
    → y.acquired ≡ l
    → (if c then x else y).acquired ≡ l
if-acquired true x y l h k = h
if-acquired false x y l h k = k

act-acquired : (x : Act) (b : Bridge) → (act x b).acquired ≡ b.acquired ++ attached_by x
unfolding attach_surface detach_surface set_viewport ask_stop
act-acquired (attach (pos slot) o) b =
    let at_least : ltb_ℤ (pos slot) (pos 0) ≡ false = ground arith in rw at_least refl
act-acquired (attach (negsuc n) o) b =
    let below : ltb_ℤ (negsuc n) (pos 0) ≡ true = ground arith in
    rw below (sym (append-nil b.acquired))
act-acquired (detach slot) b =
    if-acquired (ltb_ℤ slot (pos 0)) b _ (b.acquired ++ []) (sym (append-nil b.acquired))
      (sym (append-nil b.acquired))
act-acquired (view m n) b =
    if-acquired (leb_ℤ m (pos 0) || leb_ℤ n (pos 0)) b _ (b.acquired ++ [])
      (sym (append-nil b.acquired)) (sym (append-nil b.acquired))
act-acquired stop b = sym (append-nil b.acquired)
act-acquired (thread a) b = (run_step-balance 0 a b).1 ∙ sym (append-nil b.acquired)

acts-acquired : (xs : List Act) (b : Bridge) → (acts xs b).acquired ≡ b.acquired ++ attached xs
unfolding acts
acts-acquired [] b = sym (append-nil b.acquired)
acts-acquired (x ∷ xs) b =
    acts-acquired xs (act x b)
    ∙ ap (λ l. l ++ attached xs) (act-acquired x b)
    ∙ append_assoc b.acquired (attached_by x) (attached xs)

-- Before its loop and behind it the thread keeps no panel.
abbrev KeepsNone : Place → List (Option Panel) → Type 0
KeepsNone starting ps = ps ≡ []
KeepsNone tearing_events ps = ps ≡ []
KeepsNone ended ps = ps ≡ []
KeepsNone _ ps = Unit {0}

abbrev IsBare : Bridge → Type 0
IsBare b = KeepsNone b.place b.panels

if-IsBare : (c : Bool) (x y : Bridge) → IsBare x → IsBare y → IsBare (if c then x else y)
if-IsBare true x y h k = h
if-IsBare false x y h k = k

apply_first-IsBare : (evs : List SurfaceEvent) (b : Bridge) → IsBare (apply_first evs b)
apply_first-IsBare [] b = tt
apply_first-IsBare (ev ∷ evs) b = tt

run_step-IsBare :
    (at : Place) (a : Answers) (b : Bridge)
    → KeepsNone at b.panels
    → IsBare (run_step a (record b { place = at }))
unfolding run_step
run_step-IsBare starting a b h = go a.started
  where
    go : (c : Bool) → KeepsNone (if c then pumping else ended) b.panels
    go true = tt
    go false = h
run_step-IsBare pumping a b h = if-IsBare (b.stopping || finished b.session) _ _ tt tt
run_step-IsBare taking a b h = tt
run_step-IsBare (applying evs) a b h = apply_first-IsBare evs (record b { place = applying evs })
run_step-IsBare bringing_up a b h = tt
run_step-IsBare tearing_panels a b h = refl
run_step-IsBare tearing_events a b h = h
run_step-IsBare ended a b h = h

act-IsBare : (x : Act) (b : Bridge) → IsBare b → IsBare (act x b)
unfolding attach_surface detach_surface set_viewport ask_stop
act-IsBare (attach slot o) b h = if-IsBare (ltb_ℤ slot (pos 0)) b _ h h
act-IsBare (detach slot) b h = if-IsBare (ltb_ℤ slot (pos 0)) b _ h h
act-IsBare (view m n) b h = if-IsBare (leb_ℤ m (pos 0) || leb_ℤ n (pos 0)) b _ h h
act-IsBare stop b h = h
act-IsBare (thread a) b h = run_step-IsBare b.place a b h

acts-IsBare : (xs : List Act) (b : Bridge) → IsBare b → IsBare (acts xs b)
unfolding acts
acts-IsBare [] b h = h
acts-IsBare (x ∷ xs) b h = acts-IsBare xs (act x b) (act-IsBare x b h)

-- A thread that has returned owns no window; those that wait have no other owner.
owners-returned :
    (w : ℕ) (b : Bridge)
    → b.place ≡ ended
    → IsBare b
    → owners w b ≡ count w b.released + count w (tear_events b.surface_events)
unfolding tear_events
owners-returned w b e h =
    let none_left : b.panels ≡ [] = subst (λ p. KeepsNone p b.panels) e h in
    rw (e, none_left) (omega arith)

new_bridge-IsBalanced : (w : ℕ) → IsBalanced w new_bridge
unfolding new_bridge tear_events
new_bridge-IsBalanced w = omega arith

new_bridge-IsBare : IsBare new_bridge
unfolding new_bridge
new_bridge-IsBare = refl

-- Take any steps of the two threads from a new bridge, behind which the thread of `run` has returned,
-- and any steps that follow. Then the references to a window that were acquired and not released
-- are, in number, those that still waited for the thread when it had returned and those that were
-- attached since.
pub acts-attached :
    (w : ℕ) (xs ys : List Act)
    → (acts xs new_bridge).place ≡ ended
    → let b = acts xs new_bridge in
      let c = acts ys b in
      count w c.acquired
      ≡ count w c.released + count w (tear_events b.surface_events) + count w (attached ys)
acts-attached w xs ys e =
    let b = acts xs new_bridge in
    omega (
      arith,
      ap (count w) (acts-acquired ys b),
      ap (count w) (acts-released ys b e),
      count-append w b.acquired (attached ys),
      acts-IsBalanced w xs new_bridge (new_bridge-IsBalanced w),
      owners-returned w b e (acts-IsBare xs new_bridge new_bridge-IsBare),
    )
