-- ===== src/Bridge/Windows.antt =====
-- quest-spatial/app/src/main/cpp/jni_bridge.cpp: who owns each reference to a window.
use loom_client.Common.{
  ℕ, zero, suc, ◌+◌, ℤ, pos, negsuc, ltb_ℤ, leb_ℤ, ◌==◌, ◌≡◌, refl, sym, ◌∙◌, ap, arith, Bool, true,
  false, ◌||◌, Bool-cases, inl, inr, Option, none, some, List, [], ◌∷◌, ◌++◌, if◌then◌else◌,
}
use loom_client.NetSession.{NetSession, finished}
use loom_client.Bridge.{
  SurfaceEvent, Panel, PanelDecoder, Place, Bridge, starting, pumping, taking, applying,
  bringing_up, tearing_panels, tearing_events, ended, refs, panel_at, put_panel, apply_event,
  bring_panel, bring_up, stop_if, tear_panels, tear_events, Answers, pump_session, apply_first,
  run_step, attach_surface, detach_surface, set_viewport, ask_stop, Act, attach, detach, view, stop,
  thread, act, acts,
}

-- How often `w` is in a list.
abbrev pub count : ℕ → List ℕ → ℕ
count w [] = 0
count w (x ∷ xs) = (if x == w then 1 else 0) + count w xs

abbrev pub panel_refs : Option Panel → List ℕ
panel_refs none = []
panel_refs (some p) = refs p.window

-- The windows of the panels.
abbrev pub panel_windows : List (Option Panel) → List ℕ
panel_windows [] = []
panel_windows (p ∷ ps) = panel_refs p ++ panel_windows ps

-- The events that the thread has taken.
abbrev pub taken : Place → List SurfaceEvent
taken (applying events) = events
taken _ = []

-- The references to `w` that a part of the bridge owns, and those that are released.
abbrev pub owners : ℕ → Bridge → ℕ
owners w b =
    count w b.released
    + count w (panel_windows b.panels)
    + count w (tear_events (taken b.place))
    + count w (tear_events b.surface_events)

-- Every reference to `w` that was acquired has one owner, or was released once.
abbrev pub IsBalanced : ℕ → Bridge → Type 0
IsBalanced w b = owners w b ≡ count w b.acquired

pub count-append : (w : ℕ) (xs ys : List ℕ) → count w (xs ++ ys) ≡ count w xs + count w ys
count-append w [] ys = omega arith
count-append w (x ∷ xs) ys = omega (arith, count-append w xs ys)

pub tear_events-append :
    (w : ℕ) (xs : List SurfaceEvent) (ev : SurfaceEvent)
    → count w (tear_events (xs ++ ev ∷ [])) ≡ count w (tear_events xs) + count w (refs ev.window)
unfolding tear_events
tear_events-append w [] ev = omega (arith, count-append w (refs ev.window) [])
tear_events-append w (x ∷ xs) ev = omega (
  arith,
  count-append w (refs x.window) (tear_events (xs ++ ev ∷ [])),
  count-append w (refs x.window) (tear_events xs),
  tear_events-append w xs ev,
)

count-put_panel :
    (w n : ℕ) (q : Panel) (ps : List (Option Panel))
    → count w (panel_windows (put_panel n q ps)) + count w (refs (panel_at n ps).window)
      ≡ count w (panel_windows ps) + count w (refs q.window)
unfolding put_panel
count-put_panel w zero q [] = omega (arith, count-append w (refs q.window) [])
count-put_panel w zero q (none ∷ ps) =
    omega (arith, count-append w (refs q.window) (panel_windows ps))
count-put_panel w zero q (some p ∷ ps) = omega (
  arith,
  count-append w (refs q.window) (panel_windows ps),
  count-append w (refs p.window) (panel_windows ps),
)
count-put_panel w (suc n) q [] = omega (arith, count-put_panel w n q [])
count-put_panel w (suc n) q (p ∷ ps) = omega (
  arith,
  count-append w (panel_refs p) (panel_windows (put_panel n q ps)),
  count-append w (panel_refs p) (panel_windows ps),
  count-put_panel w n q ps,
)

apply_event-owners :
    (w : ℕ) (ev : SurfaceEvent) (evs : List SurfaceEvent) (b : Bridge)
    → owners w (apply_first (ev ∷ evs) b) ≡ owners w (record b { place = applying (ev ∷ evs) })
unfolding apply_event tear_events
apply_event-owners w ev evs b = go ev.slot
  where
    go :
        (slot : ℤ)
        → let e : SurfaceEvent = record { slot = slot; window = ev.window } in
          owners w (apply_first (e ∷ evs) b) ≡ owners w (record b { place = applying (e ∷ evs) })
    go (negsuc n) = omega (
      arith,
      count-append w b.released (refs ev.window),
      count-append w (refs ev.window) (tear_events evs),
    )
    go (pos n) = omega (
      arith,
      count-append w b.released (refs (panel_at n b.panels).window),
      count-append w (refs ev.window) (tear_events evs),
      count-put_panel w n (record { window = ev.window; decoder = none }) b.panels,
    )

bring_panel-window :
    (creates : ℕ → Bool) (n : ℕ) (s : NetSession) (p : Panel)
    → (bring_panel creates n s p).window ≡ p.window
unfolding bring_panel
bring_panel-window creates n s p = go p.decoder s.streaming
  where
    go :
        (o : Option PanelDecoder) (on : Bool)
        → (bring_panel creates n (record s { streaming = on }) (record p { decoder = o })).window
          ≡ p.window
    go (some d) on = refl
    go none true = refl
    go none false = refl

bring_up-windows :
    (creates : ℕ → Bool) (n : ℕ) (s : NetSession) (ps : List (Option Panel))
    → panel_windows (bring_up creates n s ps) ≡ panel_windows ps
unfolding bring_up
bring_up-windows creates n s [] = refl
bring_up-windows creates n s (none ∷ ps) = bring_up-windows creates (suc n) s ps
bring_up-windows creates n s (some p ∷ ps) =
    rw (bring_panel-window creates n s p, bring_up-windows creates (suc n) s ps)

tear_panels-windows :
    (ps : List (Option Panel)) (s : NetSession) → (tear_panels ps s).1 ≡ panel_windows ps
unfolding tear_panels
tear_panels-windows [] s = refl
tear_panels-windows (none ∷ ps) s = tear_panels-windows ps s
tear_panels-windows (some p ∷ ps) s = rw (tear_panels-windows ps (stop_if p.decoder s))

if-balance :
    (w : ℕ) (c : Bool) (b x y : Bridge)
    → (owners w x ≡ owners w b) × (x.acquired ≡ b.acquired)
    → (owners w y ≡ owners w b) × (y.acquired ≡ b.acquired)
    → (owners w (if c then x else y) ≡ owners w b) × ((if c then x else y).acquired ≡ b.acquired)
if-balance w true b x y h k = h
if-balance w false b x y h k = k

apply_event-acquired : (ev : SurfaceEvent) (b : Bridge) → (apply_event ev b).acquired ≡ b.acquired
unfolding apply_event
apply_event-acquired ev b = go ev.slot
  where
    go :
        (slot : ℤ)
        → (apply_event (record { slot = slot; window = ev.window }) b).acquired ≡ b.acquired
    go (negsuc n) = refl
    go (pos n) = refl

started-balance :
    (w : ℕ) (c : Bool) (b : Bridge)
    → owners w (record b { place = if c then pumping else ended })
      ≡ owners w (record b { place = starting })
started-balance w true b = refl
started-balance w false b = refl

pub run_step-balance :
    (w : ℕ) (a : Answers) (b : Bridge)
    → (owners w (run_step a b) ≡ owners w b) × ((run_step a b).acquired ≡ b.acquired)
unfolding run_step pump_session tear_events
run_step-balance w a b = go b.place
  where
    go :
        (at : Place)
        → (owners w (run_step a (record b { place = at })) ≡ owners w (record b { place = at }))
          × ((run_step a (record b { place = at })).acquired ≡ b.acquired)
    go starting = (started-balance w a.started b, refl)
    go pumping =
        if-balance w (b.stopping || finished b.session) (record b { place = pumping }) _ _
          (refl, refl) (refl, refl)
    go taking = (omega arith, refl)
    go (applying []) = (refl, refl)
    go (applying (ev ∷ evs)) = (
      apply_event-owners w ev evs (record b { place = applying (ev ∷ evs) }),
      apply_event-acquired ev (record b { place = applying (ev ∷ evs) }),
    )
    go bringing_up =
        let same = bring_up-windows a.creates 0 b.session b.panels in
        (omega (arith, ap (λ l. count w l) same), refl)
    go tearing_panels =
        let (_, ws) = tear_panels b.panels b.session in
        let same = tear_panels-windows b.panels b.session in
        (omega (arith, count-append w b.released ws, ap (λ l. count w l) same), refl)
    go tearing_events =
        (omega (arith, count-append w b.released (tear_events b.surface_events)), refl)
    go ended = (refl, refl)

attach_surface-IsBalanced :
    (w : ℕ) (slot : ℤ) (o : Option ℕ) (b : Bridge)
    → IsBalanced w b
    → IsBalanced w (attach_surface slot o b)
unfolding attach_surface
attach_surface-IsBalanced w slot o b h = elim (Bool-cases (ltb_ℤ slot (pos 0))) [
  | inl out ↦ rw out h
  | inr at_slot ↦
      let ev : SurfaceEvent = record { slot = slot; window = o } in
      rw at_slot (
        omega (arith, tear_events-append w b.surface_events ev, count-append w b.acquired (refs o)))
]

detach_surface-IsBalanced :
    (w : ℕ) (slot : ℤ) (b : Bridge) → IsBalanced w b → IsBalanced w (detach_surface slot b)
unfolding detach_surface
detach_surface-IsBalanced w slot b h = elim (Bool-cases (ltb_ℤ slot (pos 0))) [
  | inl out ↦ rw out h
  | inr at_slot ↦
      let ev : SurfaceEvent = record { slot = slot; window = none } in
      rw at_slot (omega (arith, tear_events-append w b.surface_events ev))
]

set_viewport-IsBalanced :
    (w : ℕ) (width height : ℤ) (b : Bridge)
    → IsBalanced w b
    → IsBalanced w (set_viewport width height b)
unfolding set_viewport
set_viewport-IsBalanced w m n b h = elim (Bool-cases (leb_ℤ m (pos 0) || leb_ℤ n (pos 0))) [
  | inl out ↦ rw out h
  | inr in_range ↦ rw in_range h
]

pub act-IsBalanced : (w : ℕ) (x : Act) (b : Bridge) → IsBalanced w b → IsBalanced w (act x b)
unfolding ask_stop
act-IsBalanced w (attach slot o) b h = attach_surface-IsBalanced w slot o b h
act-IsBalanced w (detach slot) b h = detach_surface-IsBalanced w slot b h
act-IsBalanced w (view m n) b h = set_viewport-IsBalanced w m n b h
act-IsBalanced w stop b h = h
act-IsBalanced w (thread a) b h =
    let (same, acquired) = run_step-balance w a b in same ∙ h ∙ ap (λ l. count w l) (sym acquired)

-- Whatever the order of the steps of the two threads, from a state in which it holds: each reference
-- to a window that `fromSurface` took is either owned, once, by a panel, by an event that the thread
-- has taken or by one that waits, or it was released, once.
pub acts-IsBalanced :
    (w : ℕ) (xs : List Act) (b : Bridge) → IsBalanced w b → IsBalanced w (acts xs b)
unfolding acts
acts-IsBalanced w [] b h = h
acts-IsBalanced w (x ∷ xs) b h = acts-IsBalanced w xs (act x b) (act-IsBalanced w x b h)
