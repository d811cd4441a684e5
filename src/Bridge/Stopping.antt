-- ===== src/Bridge/Stopping.antt =====
-- quest-spatial/app/src/main/cpp/jni_bridge.cpp: `NativeBridge.stop`, which waits for the thread.
use loom_client.Common.{
  ℕ, ◌+◌, ◌≤◌, ℤ, pos, negsuc, ◌≡◌, refl, sym, ◌∙◌, subst, arith, Bool, true, ◌||◌, List, [], ◌∷◌,
  length, if◌then◌else◌,
}
use loom_client.NetSession.{finished}
use loom_client.Bridge.{
  SurfaceEvent, Place, Bridge, starting, pumping, taking, applying, bringing_up, tearing_panels,
  tearing_events, ended, apply_event, tear_events, Answers, pump_session, run_step,
}
use loom_client.Bridge.Windows.{count, IsBalanced, run_step-balance, owners}

-- The thread on its own.
abbrev pub thread_alone : List Answers → Bridge → Bridge
thread_alone [] b = b
thread_alone (a ∷ as') b = thread_alone as' (run_step a b)

-- The steps that the thread has left, at most, once it was asked to stop, where the connection had
-- started.
abbrev pub steps_left : Place → List SurfaceEvent → ℕ
steps_left starting waiting = 0
steps_left ended waiting = 0
steps_left tearing_events waiting = 0
steps_left tearing_panels waiting = 2
steps_left pumping waiting = 3
steps_left bringing_up waiting = 4
steps_left (applying evs) waiting = length evs + 5
steps_left taking waiting = length waiting + 6

-- The connection had started, and the panels are not torn down.
abbrev pub IsInLoop : Place → Type 0
IsInLoop starting = ⊥
IsInLoop ended = ⊥
IsInLoop tearing_events = ⊥
IsInLoop _ = Unit

abbrev pub IsEmptied : Bridge → Type 0
IsEmptied b = (b.place ≡ ended) × (b.panels ≡ []) × (b.surface_events ≡ [])

from_ended :
    (as' : List Answers) (b : Bridge)
    → b.panels ≡ []
    → b.surface_events ≡ []
    → IsEmptied (thread_alone as' (record b { place = ended }))
unfolding run_step
from_ended [] b e f = (refl, e, f)
from_ended (a ∷ as') b e f = from_ended as' b e f

from_tearing_events :
    (as' : List Answers) (b : Bridge)
    → b.panels ≡ []
    → 1 ≤ length as'
    → IsEmptied (thread_alone as' (record b { place = tearing_events }))
unfolding run_step
from_tearing_events [] b e h = absurd (omega arith)
from_tearing_events (a ∷ as') b e h =
    from_ended as' (run_step a (record b { place = tearing_events })) e refl

from_tearing_panels :
    (as' : List Answers) (b : Bridge)
    → 2 ≤ length as'
    → IsEmptied (thread_alone as' (record b { place = tearing_panels }))
unfolding run_step
from_tearing_panels [] b h = absurd (omega arith)
from_tearing_panels (a ∷ as') b h =
    from_tearing_events as' (run_step a (record b { place = tearing_panels })) refl (omega arith)

from_pumping :
    (as' : List Answers) (b : Bridge)
    → b.stopping ≡ true
    → 3 ≤ length as'
    → IsEmptied (thread_alone as' (record b { place = pumping }))
unfolding run_step
from_pumping [] b e h = absurd (omega arith)
from_pumping (a ∷ as') b e h =
    let next : Bool → Bridge = λ c.
      if c || finished b.session
      then record b { place = tearing_panels }
      else record (pump_session a (record b { place = pumping })) { place = taking } in
    subst (λ c. IsEmptied (thread_alone as' (next c))) (sym e)
      (from_tearing_panels as' b (omega arith))

from_bringing_up :
    (as' : List Answers) (b : Bridge)
    → b.stopping ≡ true
    → 4 ≤ length as'
    → IsEmptied (thread_alone as' (record b { place = bringing_up }))
unfolding run_step
from_bringing_up [] b e h = absurd (omega arith)
from_bringing_up (a ∷ as') b e h =
    from_pumping as' (run_step a (record b { place = bringing_up })) e (omega arith)

apply_event-stopping : (ev : SurfaceEvent) (b : Bridge) → (apply_event ev b).stopping ≡ b.stopping
unfolding apply_event
apply_event-stopping ev b = go ev.slot
  where
    go :
        (slot : ℤ)
        → (apply_event (record { slot = slot; window = ev.window }) b).stopping ≡ b.stopping
    go (negsuc n) = refl
    go (pos n) = refl

from_applying :
    (as' : List Answers) (evs : List SurfaceEvent) (b : Bridge)
    → b.stopping ≡ true
    → length evs + 5 ≤ length as'
    → IsEmptied (thread_alone as' (record b { place = applying evs }))
unfolding run_step
from_applying [] evs b e h = absurd (omega arith)
from_applying (a ∷ as') [] b e h = from_bringing_up as' b e (omega arith)
from_applying (a ∷ as') (ev ∷ evs) b e h =
    let b1 : Bridge = record b { place = applying (ev ∷ evs) } in
    from_applying as' evs (apply_event ev b1) (apply_event-stopping ev b1 ∙ e) (omega arith)

from_taking :
    (as' : List Answers) (b : Bridge)
    → b.stopping ≡ true
    → length b.surface_events + 6 ≤ length as'
    → IsEmptied (thread_alone as' (record b { place = taking }))
unfolding run_step
from_taking [] b e h = absurd (omega arith)
from_taking (a ∷ as') b e h =
    from_applying as' b.surface_events (run_step a (record b { place = taking })) e (omega arith)

-- A thread that was asked to stop in its loop returns, and leaves no window with anyone.
thread_alone-IsEmptied :
    (as' : List Answers) (b : Bridge)
    → b.stopping ≡ true
    → IsInLoop b.place
    → steps_left b.place b.surface_events ≤ length as'
    → IsEmptied (thread_alone as' b)
thread_alone-IsEmptied as' b e = go b.place
  where
    go :
        (at : Place)
        → IsInLoop at
        → steps_left at b.surface_events ≤ length as'
        → IsEmptied (thread_alone as' (record b { place = at }))
    go starting i h = elim i [ ]
    go tearing_events i h = elim i [ ]
    go ended i h = elim i [ ]
    go tearing_panels i h = from_tearing_panels as' b h
    go pumping i h = from_pumping as' b e h
    go bringing_up i h = from_bringing_up as' b e h
    go (applying evs) i h = from_applying as' evs b e h
    go taking i h = from_taking as' b e h

thread_alone-balance :
    (w : ℕ) (as' : List Answers) (b : Bridge)
    → (owners w (thread_alone as' b) ≡ owners w b) × ((thread_alone as' b).acquired ≡ b.acquired)
thread_alone-balance w [] b = (refl, refl)
thread_alone-balance w (a ∷ as') b =
    let (same, acquired) = run_step-balance w a b in
    let (rest, also) = thread_alone-balance w as' (run_step a b) in (rest ∙ same, also ∙ acquired)

owners-emptied : (w : ℕ) (b : Bridge) → IsEmptied b → owners w b ≡ count w b.released
unfolding tear_events
owners-emptied w b (at, panels, waiting) = rw (at, panels, waiting) (omega arith)

-- `stop` while the thread is in its loop, where every reference to a window had one owner: in the
-- steps that it has left the thread returns, whatever it is answered, and each window was released
-- as often as a reference to it was acquired.
pub stop_lem :
    (w : ℕ) (as' : List Answers) (b : Bridge)
    → b.stopping ≡ true
    → IsInLoop b.place
    → IsBalanced w b
    → steps_left b.place b.surface_events ≤ length as'
    → ((thread_alone as' b).place ≡ ended)
      × (count w (thread_alone as' b).released ≡ count w b.acquired)
stop_lem w as' b e i h enough =
    let emptied = thread_alone-IsEmptied as' b e i enough in
    (
      emptied.0,
      sym (owners-emptied w (thread_alone as' b) emptied) ∙ (thread_alone-balance w as' b).0 ∙ h,
    )
