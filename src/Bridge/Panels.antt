-- ===== src/Bridge/Panels.antt =====
-- quest-spatial/app/src/main/cpp/jni_bridge.cpp: the panels, their windows and their decoders.
use loom_client.Common.{
  ℕ, zero, suc, ◌-◌, ◌%◌, ◌^◌, ℤ, pos, negsuc, ltb, ◌==◌, Bool, Option, none, some, List, [], ◌∷◌,
  ◌++◌, get_elem?, if◌then◌else◌,
}
use loom_client.Session.Config.{SessionConfig, StreamConfig}
use loom_client.VideoReceiver.{VideoReceiver, or_default}
use loom_client.VideoReceiver
use loom_client.NetSession.{NetSession, receiver, stream_ids}

pub record SurfaceEvent : Type 0 where
  pub slot : ℤ
  pub window : Option ℕ

pub record PanelDecoder : Type 0 where
  pub target : ℕ
  pub stream_id : ℕ
  pub width : ℤ
  pub height : ℤ

pub record Panel : Type 0 where
  pub window : Option ℕ
  pub decoder : Option PanelDecoder

-- `static_cast<int>` of an unsigned value.
abbrev pub to_i32 : ℕ → ℤ
to_i32 n = let m = n % 2 ^ 32 in if ltb m (2 ^ 31) then pos m else negsuc (2 ^ 32 - 1 - m)

abbrev pub extra_size : Option StreamConfig → ℤ × ℤ
extra_size none = (pos 2560, pos 1440)
extra_size (some c) = (to_i32 c.width, to_i32 c.height)

unfoldable pub decoder_size : Option SessionConfig → ℕ → ℤ × ℤ
decoder_size none slot = (pos 2560, pos 1440)
decoder_size (some cfg) zero = (to_i32 cfg.width, to_i32 cfg.height)
decoder_size (some cfg) (suc slot) = extra_size (get_elem? cfg.extra_streams slot)

abbrev pub refs : Option ℕ → List ℕ
refs none = []
refs (some w) = w ∷ []

abbrev pub no_panel : Panel
no_panel = record { window = none; decoder = none }

-- `*panels[slot]`, made where it is not there.
abbrev pub panel_at : ℕ → List (Option Panel) → Panel
panel_at slot panels = or_default no_panel (or_default none (get_elem? panels slot))

-- The list grows up to the slot.
unfoldable pub put_panel : ℕ → Panel → List (Option Panel) → List (Option Panel)
put_panel zero p [] = some p ∷ []
put_panel zero p (q ∷ ps) = some p ∷ ps
put_panel (suc n) p [] = none ∷ put_panel n p []
put_panel (suc n) p (q ∷ ps) = q ∷ put_panel n p ps

unfoldable pub update_receiver :
    (VideoReceiver → VideoReceiver) → ℕ → List (ℕ × VideoReceiver) → List (ℕ × VideoReceiver)
update_receiver f stream_id [] = []
update_receiver f stream_id ((sid, r) ∷ rs) =
    if sid == stream_id then (sid, f r) ∷ rs else (sid, r) ∷ update_receiver f stream_id rs

-- `p.decoder->stop()`, which stops the receiver that the decoder was started with.
unfoldable pub stop_decoder : PanelDecoder → NetSession → NetSession
unfolding update_receiver
stop_decoder d s = record s {
  receivers = update_receiver VideoReceiver.stop d.stream_id s.receivers;
}

-- The old decoder of a slot is torn down, and the receiver of the slot's stream resumes.
unfoldable pub retire : Option PanelDecoder → ℕ → NetSession → NetSession
unfolding stop_decoder
retire none slot s = s
retire (some d) slot s =
    let s1 = stop_decoder d s in
    let id = or_default 0 (get_elem? (stream_ids s.receivers) slot) in
    record s1 { receivers = update_receiver VideoReceiver.resume id s1.receivers }

-- The decoder that a slot gets, where `creates` says that `create` succeeds for the slot.
abbrev pub new_decoder :
    (creates : ℕ → Bool) → ℕ → NetSession → Option ℕ → Option ℕ → Option PanelDecoder
new_decoder creates slot s (some w) (some id) = elim (receiver id s.receivers) [
  | none ↦ none
  | some rx ↦
      let (width, height) = decoder_size s.session.config slot in
      if creates slot
      then some (record { target = w; stream_id = id; width = width; height = height })
      else none
]
new_decoder creates slot s _ _ = none

-- A decoder is brought up once the slot has its surface and its stream.
unfoldable pub bring_panel : (creates : ℕ → Bool) → ℕ → NetSession → Panel → Panel
unfolding decoder_size
bring_panel creates slot s p = elim p.decoder [
  | some d ↦ p
  | none ↦
      if s.streaming
      then record p {
        decoder = new_decoder creates slot s p.window (get_elem? (stream_ids s.receivers) slot);
      }
      else p
]

-- The loop over the slots, from `slot` on.
unfoldable pub bring_up :
    (creates : ℕ → Bool) → ℕ → NetSession → List (Option Panel) → List (Option Panel)
unfolding bring_panel
bring_up creates slot s [] = []
bring_up creates slot s (none ∷ ps) = none ∷ bring_up creates (suc slot) s ps
bring_up creates slot s (some p ∷ ps) =
    some (bring_panel creates slot s p) ∷ bring_up creates (suc slot) s ps

abbrev pub stop_if : Option PanelDecoder → NetSession → NetSession
stop_if none s = s
stop_if (some d) s = stop_decoder d s

-- The decoders stop before their receivers go away, and the windows are released.
unfoldable pub tear_panels : List (Option Panel) → NetSession → NetSession × List ℕ
unfolding stop_decoder
tear_panels [] s = (s, [])
tear_panels (none ∷ ps) s = tear_panels ps s
tear_panels (some p ∷ ps) s =
    let (s1, ws) = tear_panels ps (stop_if p.decoder s) in (s1, refs p.window ++ ws)

unfoldable pub tear_events : List SurfaceEvent → List ℕ
tear_events [] = []
tear_events (ev ∷ evs) = refs ev.window ++ tear_events evs
