-- ===== src/Tests/PipelineRuns.antt =====
-- The theorem on sdl/src/video_pipeline.cpp at a concrete input: the decoder counts its frames.
use loom_client.Common.{ℕ, suc, ◌≡◌, true, none, Option, some, [], ◌∷◌, List}
use loom_client.VideoReceiver.{new_receiver}
use loom_client.VideoPipeline.{VideoPipeline, new_pipeline, take_frame}
use loom_client.VideoPipeline.Slot.{rounds, last_picture, take_frame-rounds}

abbrev counting : ℕ → List ℕ → ℕ × Option ℕ
counting d [] = (d, none)
counting d (b ∷ bs) = (suc d, some d)

abbrev queued : VideoPipeline ℕ ℕ
queued = record (new_pipeline counting true 0) {
  receiver = record (new_receiver true 0) {
    au_queue =
        record { capture_ts = 5; au_data = 1 ∷ []; keyframe = true }
        ∷ record { capture_ts = 9; au_data = 2 ∷ []; keyframe = true }
        ∷ [];
  };
  has_new = true;
}

take_frame-rounds_example :
    (take_frame counting (rounds counting 2 (take_frame counting queued).1)).0
    ≡ last_picture counting none 2 (take_frame counting queued).1
take_frame-rounds_example = take_frame-rounds counting 2 queued
