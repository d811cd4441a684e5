-- ===== src/Tests.antt =====
-- Runs on concrete inputs, and the theorems at inputs where their conditions hold.
mod CborRuns
mod Wire
mod Receive
mod SessionRuns
mod VideoRuns
mod TextRuns
mod NetRuns
mod PipelineRuns
mod QuestRuns
mod HandshakeRuns
mod SdlRuns
mod DeliveryRuns
mod XrRuns
mod OverlayRuns
mod HandleRuns
mod FrameRuns
