-- ===== src/Tests/Receive.antt =====
-- The theorems on proto/src/reassembly.cpp and clocksync.cpp at concrete inputs.
use loom_client.Common.{
  ℕ, ℤ, pos, negsuc, ◌+ℤ◌, ◌-ℤ◌, ◌≤ℤ◌, ◌≡◌, refl, arith, true, false, none, List, [], ◌∷◌,
}
use loom_client.Reassembly.{Fragment, fresh, run}
use loom_client.Reassembly.Window.{fresh-Inv}
use loom_client.Reassembly.Lacking.{IsWindow, run-IsWindow}
use loom_client.Reassembly.Events.{Gated}
use loom_client.Reassembly.Delivery.{run-Gated}
use loom_client.ClockSync.{Estimate, push, sample}
use loom_client.ClockSync.Offset.{sample_accuracy}
use loom_client.ClockSync.Filter.{IsLatestMinimum, push-IsLatestMinimum}

abbrev piece : ℕ → ℕ → ℕ → Fragment
piece seq index count = record {
  frame_seq = seq;
  frag_index = index;
  frag_count = count;
  keyframe = false;
}

abbrev key_piece : ℕ → Fragment
key_piece seq = record { frame_seq = seq; frag_index = 0; frag_count = 1; keyframe = true }

-- A keyframe, its successor in two pieces out of order, a gap, a stale piece and a later keyframe.
abbrev arrivals : List (ℤ × Fragment)
arrivals =
    (pos 0, key_piece 1)
    ∷ (pos 5, piece 2 1 2)
    ∷ (pos 6, piece 2 0 2)
    ∷ (pos 9, piece 4 0 1)
    ∷ (pos 10, piece 3 0 1)
    ∷ (pos 300, piece 6 0 1)
    ∷ (pos 301, key_piece 7)
    ∷ []

run-Gated_example : Gated none (run arrivals fresh).events
run-Gated_example = run-Gated arrivals (ground arith)

run-IsWindow_example : IsWindow (run arrivals fresh)
run-IsWindow_example = run-IsWindow arrivals fresh fresh-Inv

-- The host's clock is ahead by 1000, the ping takes 30 and the pong 50.
sample_accuracy_example :
    let e = sample (pos 0) (pos 1030) (pos 1040) (pos 90) in
    (e.rtt ≡ pos 80)
    × (e.offset +ℤ e.offset ≤ℤ pos 2000 +ℤ e.rtt)
    × (pos 2000 ≤ℤ e.offset +ℤ e.offset +ℤ e.rtt +ℤ pos 1)
unfolding ◌+ℤ◌ ◌-ℤ◌
sample_accuracy_example =
    sample_accuracy (pos 1000) (pos 30) (pos 50) (pos 0) (pos 1030) (pos 1040) (pos 90)
      (omega arith) (omega arith) refl refl

abbrev one_sample : List Estimate
one_sample = record { rtt = pos 20; offset = negsuc 4 } ∷ []

push-IsLatestMinimum_example :
    IsLatestMinimum
      (push (pos 0) (pos 5) (pos 6) (pos 21) one_sample).1
      (push (pos 0) (pos 5) (pos 6) (pos 21) one_sample).0
push-IsLatestMinimum_example = push-IsLatestMinimum (pos 0) (pos 5) (pos 6) (pos 21) one_sample

-- Two pushes into an empty window.
abbrev two_pings : List (ℤ × ℤ × ℤ × ℤ)
two_pings = (pos 0, pos 5, pos 6, pos 21) ∷ (pos 100, pos 104, pos 105, pos 118) ∷ []
