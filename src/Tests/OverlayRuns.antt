-- ===== src/Tests/OverlayRuns.antt =====
-- The theorems on the overlay of the Quest client at concrete inputs.
use loom_client.Common.{
  zeros, length-zeros, pos, ◌≡◌, refl, arith, true, false, none, some, [], ◌∷◌,
}
use loom_client.Text.{codes}
use loom_client.Metrics.{Doubles}
use loom_client.Overlay.{rasterize}
use loom_client.Overlay.Picture.{frame, picture, rasterize-frame}
use loom_client.XrApp.{XrApp}
use loom_client.XrApp.Lines.{Prints}
use loom_client.XrApp.Lines

-- The top of the digit 1 is in its middle column.
one_at_top : picture (codes "1" ∷ []) 16 8 ≡ true
unfolding loom_client.Overlay.Font.font loom_client.Overlay.Font.glyphs loom_client.OrderedMap.find
one_at_top = refl

-- Nothing is drawn left of it.
one_beside : picture (codes "1" ∷ []) 11 8 ≡ false
unfolding loom_client.Overlay.Font.font loom_client.Overlay.Font.glyphs loom_client.OrderedMap.find
one_beside = refl

-- The font has no glyph for the `n` of "win".
no_glyph : picture (codes "n" ∷ []) 16 24 ≡ false
unfolding loom_client.Overlay.Font.font loom_client.Overlay.Font.glyphs loom_client.OrderedMap.find
no_glyph = refl

rasterize-frame_example :
    rasterize 768 192 (codes "e2e 31 ms  rtt 4 ms" ∷ codes "bitrate 9000 kbps" ∷ []) (zeros 589_824)
    ≡ some (frame (codes "e2e 31 ms  rtt 4 ms" ∷ codes "bitrate 9000 kbps" ∷ []))
rasterize-frame_example =
    rasterize-frame (codes "e2e 31 ms  rtt 4 ms" ∷ codes "bitrate 9000 kbps" ∷ []) (zeros 589_824)
      (length-zeros 589_824) (omega arith) (omega arith, (omega arith, tt))

abbrev pub no_arithmetic : Doubles
no_arithmetic = record {
  of_i64 = λ i. 0;
  of_u64 = λ n. n;
  to_u64 = λ n. n;
  add = λ a. λ b. a;
  sub = λ a. λ b. a;
  mul = λ a. λ b. a;
  div = λ a. λ b. a;
  positive = λ a. false;
}

abbrev pub plain : Prints
plain = record {
  unsigned = λ n. codes "12";
  one_digit = λ d. codes "3.1";
  two_digits = λ d. codes "0.25";
}

abbrev app : XrApp
app = record {
  windows = [];
  net_session = none;
  last_stats_us = pos 0;
  bitrate_kbps = 9000;
  bitrate_base_bytes = 0;
  bitrate_base_us = pos 0;
}
