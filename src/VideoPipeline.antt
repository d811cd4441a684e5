-- ===== src/VideoPipeline.antt =====
-- sdl/src/video_pipeline.hpp, sdl/src/video_pipeline.cpp: the decode thread's loop and the slot of the
-- newest frame. The decoder, libavcodec behind sdl/src/decoder.hpp, is a parameter: its state, its
-- frames, and `decode`, which gives a frame or none. What the loop prints is left out.
pub mod Slot
use loom_client.Common.{ℕ, ℤ, Bool, true, false, Option, none, some, List, [], ◌∷◌}
use loom_client.VideoReceiver.{
  AccessUnit, VideoReceiver, Popped, waits, drained, popped, feed_datagram, pop_au, new_receiver,
}
use loom_client.VideoReceiver

-- A decoded frame with the time that `decode_loop` writes into it.
pub record DecodedFrame (F : Type 0) : Type 0 where
  pub capture_ts : ℕ
  pub picture : F

pub record VideoPipeline (D F : Type 0) : Type 0 where
  pub receiver : VideoReceiver
  pub decoder : D
  pub latest : Option (DecodedFrame F)
  pub has_new : Bool

module _ {D F : Type 0} (decode : D → List ℕ → D × Option F) where
  unfoldable pub new_pipeline : Bool → D → VideoPipeline D F
  new_pipeline has_on_idr decoder = record {
    receiver = new_receiver has_on_idr 0;
    decoder = decoder;
    latest = none;
    has_new = false;
  }

  unfoldable pub feed : List ℕ → ℤ → VideoPipeline D F → VideoPipeline D F
  feed datagram now_ms s = record s { receiver = feed_datagram datagram now_ms s.receiver }

  -- What a decoded picture becomes: the newest frame, which is new.
  abbrev pub publish : ℕ → D × Option F → VideoPipeline D F → VideoPipeline D F
  publish capture_ts (d, none) s = record s { decoder = d }
  publish capture_ts (d, some f) s = record s {
    decoder = d;
    latest = some (record { capture_ts = capture_ts; picture = f });
    has_new = true;
  }

  abbrev pub decode_popped : Popped × VideoReceiver → VideoPipeline D F → VideoPipeline D F
  decode_popped (waits, r) s = record s { receiver = r }
  decode_popped (drained, r) s = record s { receiver = r }
  decode_popped (popped au, r) s =
      publish au.capture_ts (decode s.decoder au.au_data) (record s { receiver = r })

  -- One round of `decode_loop`: it waits or ends without an access unit.
  unfoldable pub decode_round : VideoPipeline D F → VideoPipeline D F
  decode_round s = decode_popped (pop_au s.receiver) s

  abbrev pub slot : Bool → Option (DecodedFrame F) → Option (DecodedFrame F)
  slot false latest = none
  slot true latest = latest

  -- `has_new_` is false behind the call, also where it was false before.
  unfoldable pub take_frame : VideoPipeline D F → Option (DecodedFrame F) × VideoPipeline D F
  take_frame s = (slot s.has_new s.latest, record s { has_new = false })

  unfoldable pub shut_down : VideoPipeline D F → VideoPipeline D F
  shut_down s = record s { receiver = VideoReceiver.stop s.receiver }
