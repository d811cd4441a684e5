-- ===== src/Bridge/Decoders.antt =====
-- quest-spatial/app/src/main/cpp/jni_bridge.cpp: the decoder of a panel and its window.
use loom_client.Common.{
  ℕ, zero, suc, ℤ, pos, negsuc, ltb_ℤ, leb_ℤ, ◌≡◌, refl, Bool, true, false, ◌||◌, Option, none,
  some, List, [], ◌∷◌, All, get_elem?, if◌then◌else◌,
}
use loom_client.VideoReceiver.{VideoReceiver}
use loom_client.NetSession.{NetSession, finished, receiver, stream_ids}
use loom_client.Bridge.{
  SurfaceEvent, Panel, PanelDecoder, Place, Bridge, starting, pumping, taking, applying,
  bringing_up, tearing_panels, tearing_events, ended, put_panel, decoder_size, apply_event,
  new_decoder, bring_panel, bring_up, Answers, pump_session, run_step, attach_surface,
  detach_surface, set_viewport, ask_stop, Act, attach, detach, view, stop, thread, act, acts,
}

abbrev pub RendersInto : Option PanelDecoder → Option ℕ → Type 0
RendersInto none o = Unit
RendersInto (some d) o = o ≡ some d.target

-- The decoder of a panel, if there is one, renders into the window that the panel owns.
abbrev pub IsAttached : Option Panel → Type 0
IsAttached none = Unit
IsAttached (some p) = RendersInto p.decoder p.window

put_panel-IsAttached :
    (n : ℕ) (o : Option ℕ) (ps : List (Option Panel))
    → All IsAttached ps
    → All IsAttached (put_panel n (record { window = o; decoder = none }) ps)
unfolding put_panel
put_panel-IsAttached zero o [] h = (tt, tt)
put_panel-IsAttached zero o (q ∷ ps) h = (tt, h.1)
put_panel-IsAttached (suc n) o [] h = (tt, put_panel-IsAttached n o [] tt)
put_panel-IsAttached (suc n) o (q ∷ ps) h = (h.0, put_panel-IsAttached n o ps h.1)

new_decoder-RendersInto :
    (creates : ℕ → Bool) (n : ℕ) (s : NetSession) (o id : Option ℕ)
    → RendersInto (new_decoder creates n s o id) o
new_decoder-RendersInto creates n s none id = tt
new_decoder-RendersInto creates n s (some w) none = tt
new_decoder-RendersInto creates n s (some w) (some id) = go (receiver id s.receivers) (creates n)
  where
    made : Bool → Option PanelDecoder
    made c =
        let (width, height) = decoder_size s.session.config n in
        if c
        then some (record { target = w; stream_id = id; width = width; height = height })
        else none

    go :
        (o : Option VideoReceiver) (c : Bool)
        → RendersInto (elim o [ none ↦ none | some rx ↦ made c ]) (some w)
    go none c = tt
    go (some rx) true = refl
    go (some rx) false = tt

bring_panel-IsAttached :
    (creates : ℕ → Bool) (n : ℕ) (s : NetSession) (p : Panel)
    → RendersInto p.decoder p.window
    → IsAttached (some (bring_panel creates n s p))
unfolding bring_panel
bring_panel-IsAttached creates n s p h = go p.decoder s.streaming h
  where
    go :
        (o : Option PanelDecoder) (on : Bool)
        → RendersInto o p.window
        → IsAttached
            (some (bring_panel creates n (record s { streaming = on }) (record p { decoder = o })))
    go (some d) on h = h
    go none true h =
        new_decoder-RendersInto creates n (record s { streaming = true }) p.window
          (get_elem? (stream_ids s.receivers) n)
    go none false h = tt

bring_up-IsAttached :
    (creates : ℕ → Bool) (n : ℕ) (s : NetSession) (ps : List (Option Panel))
    → All IsAttached ps
    → All IsAttached (bring_up creates n s ps)
unfolding bring_up
bring_up-IsAttached creates n s [] h = tt
bring_up-IsAttached creates n s (none ∷ ps) h = (tt, bring_up-IsAttached creates (suc n) s ps h.1)
bring_up-IsAttached creates n s (some p ∷ ps) h =
    (bring_panel-IsAttached creates n s p h.0, bring_up-IsAttached creates (suc n) s ps h.1)

apply_event-IsAttached :
    (ev : SurfaceEvent) (b : Bridge)
    → All IsAttached b.panels
    → All IsAttached (apply_event ev b).panels
unfolding apply_event
apply_event-IsAttached ev b h = go ev.slot
  where
    go :
        (slot : ℤ)
        → All IsAttached (apply_event (record { slot = slot; window = ev.window }) b).panels
    go (negsuc n) = h
    go (pos n) = put_panel-IsAttached n ev.window b.panels h

if-IsAttached :
    (c : Bool) (x y : Bridge)
    → All IsAttached x.panels
    → All IsAttached y.panels
    → All IsAttached (if c then x else y).panels
if-IsAttached true x y h k = h
if-IsAttached false x y h k = k

run_step-IsAttached :
    (a : Answers) (b : Bridge) → All IsAttached b.panels → All IsAttached (run_step a b).panels
unfolding run_step pump_session
run_step-IsAttached a b h = go b.place
  where
    go : (at : Place) → All IsAttached (run_step a (record b { place = at })).panels
    go starting = h
    go pumping = if-IsAttached (b.stopping || finished b.session) _ _ h h
    go taking = h
    go (applying []) = h
    go (applying (ev ∷ evs)) =
        apply_event-IsAttached ev (record b { place = applying (ev ∷ evs) }) h
    go bringing_up = bring_up-IsAttached a.creates 0 b.session b.panels h
    go tearing_panels = tt
    go tearing_events = h
    go ended = h

act-IsAttached : (x : Act) (b : Bridge) → All IsAttached b.panels → All IsAttached (act x b).panels
unfolding attach_surface detach_surface set_viewport ask_stop
act-IsAttached (attach slot o) b h = if-IsAttached (ltb_ℤ slot (pos 0)) _ _ h h
act-IsAttached (detach slot) b h = if-IsAttached (ltb_ℤ slot (pos 0)) _ _ h h
act-IsAttached (view m n) b h = if-IsAttached (leb_ℤ m (pos 0) || leb_ℤ n (pos 0)) _ _ h h
act-IsAttached stop b h = h
act-IsAttached (thread a) b h = run_step-IsAttached a b h

-- Whatever the order of the steps of the two threads: if every decoder renders into the window that
-- its panel owns, then so it does afterwards; no decoder outlives its window.
pub acts-IsAttached :
    (xs : List Act) (b : Bridge) → All IsAttached b.panels → All IsAttached (acts xs b).panels
unfolding acts
acts-IsAttached [] b h = h
acts-IsAttached (x ∷ xs) b h = acts-IsAttached xs (act x b) (act-IsAttached x b h)
