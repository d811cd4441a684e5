-- ===== src/VideoPipeline/Slot.antt =====
-- sdl/src/video_pipeline.cpp: the slot keeps the newest frame, and hands it out once.
use loom_client.Common.{ℕ, zero, suc, ◌≡◌, refl, ◌∙◌, ap, Option, none, some, List}
use loom_client.VideoReceiver.{VideoReceiver, Popped, waits, drained, popped, pop_au}
use loom_client.VideoPipeline.{
  DecodedFrame, VideoPipeline, publish, decode_popped, decode_round, take_frame,
}

module _ {D F : Type 0} (decode : D → List ℕ → D × Option F) where
  abbrev pub rounds : ℕ → VideoPipeline D F → VideoPipeline D F
  rounds zero s = s
  rounds (suc n) s = rounds n (decode_round decode s)

  abbrev pub frame_of : ℕ → Option F → Option (DecodedFrame F)
  frame_of capture_ts none = none
  frame_of capture_ts (some f) = some (record { capture_ts = capture_ts; picture = f })

  -- What the decoder makes of the access unit, if there is one.
  abbrev pub picture_of : Popped → D → Option (DecodedFrame F)
  picture_of waits d = none
  picture_of drained d = none
  picture_of (popped au) d = frame_of au.capture_ts (decode d au.au_data).1

  abbrev pub later : Option (DecodedFrame F) → Option (DecodedFrame F) → Option (DecodedFrame F)
  later (some f) o = some f
  later none o = o

  -- The last frame that the decoder produces in `n` rounds, or else `before`.
  abbrev pub last_picture :
      Option (DecodedFrame F) → ℕ → VideoPipeline D F → Option (DecodedFrame F)
  last_picture before zero s = before
  last_picture before (suc n) s =
      last_picture (later (picture_of (pop_au s.receiver).0 s.decoder) before) n
        (decode_round decode s)

  publish-take :
      (ts : ℕ) (p : D × Option F) (s : VideoPipeline D F)
      → (take_frame decode (publish decode ts p s)).0
        ≡ later (frame_of ts p.1) (take_frame decode s).0
  unfolding take_frame
  publish-take ts (d, none) s = refl
  publish-take ts (d, some f) s = refl

  decode_popped-take :
      (p : Popped × VideoReceiver) (s : VideoPipeline D F)
      → (take_frame decode (decode_popped decode p s)).0
        ≡ later (picture_of p.0 s.decoder) (take_frame decode s).0
  unfolding take_frame
  decode_popped-take (waits, r) s = refl
  decode_popped-take (drained, r) s = refl
  decode_popped-take (popped au, r) s =
      publish-take au.capture_ts (decode s.decoder au.au_data) (record s { receiver = r })

  rounds-take :
      (n : ℕ) (s : VideoPipeline D F)
      → (take_frame decode (rounds n s)).0 ≡ last_picture (take_frame decode s).0 n s
  unfolding decode_round
  rounds-take zero s = refl
  rounds-take (suc n) s =
      rounds-take n (decode_round decode s)
      ∙ ap (λ o. last_picture o n (decode_round decode s))
          (decode_popped-take (pop_au s.receiver) s)

  take-take : (s : VideoPipeline D F) → (take_frame decode (take_frame decode s).1).0 ≡ none
  unfolding take_frame
  take-take s = refl

  -- Whatever the decoder, what the renderer takes after `n` rounds of the decode loop, counted from
  -- its last take, is the last frame that the decoder produced in them, or none if there was none.
  pub take_frame-rounds :
      (n : ℕ) (s : VideoPipeline D F)
      → (take_frame decode (rounds n (take_frame decode s).1)).0
        ≡ last_picture none n (take_frame decode s).1
  take_frame-rounds n s =
      let taken = (take_frame decode s).1 in
      rounds-take n taken ∙ ap (λ o. last_picture o n taken) (take-take s)
