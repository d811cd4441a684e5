-- ===== src/SdlClient/Prebuffer.antt =====
-- sdl/src/main.cpp: the datagrams that come before START.
use loom_client.Common.{
  ℕ, ℤ, arith, true, ◌≡◌, refl, sym, ◌∙◌, ap, Option, none, some, List, [], ◌∷◌, ◌++◌, append-nil,
  append_assoc,
}
use loom_client.Transport.{TransportEvent, connected, control_bytes, datagram, closed}
use loom_client.VideoPipeline.{VideoPipeline, new_pipeline, feed}
use loom_client.Metrics.{Doubles}
use loom_client.SdlClient.{
  SdlClient, Incoming, feed_pipeline, feed_prebuffered, media_for, start_media, handle_transport,
  drain_events,
}

abbrev pub datagram_of : TransportEvent → List (List ℕ)
datagram_of connected = []
datagram_of (control_bytes bytes) = []
datagram_of (datagram bytes) = bytes ∷ []
datagram_of (closed code) = []

-- The media datagrams among the events.
abbrev pub datagrams_of : List Incoming → List (List ℕ)
datagrams_of [] = []
datagrams_of (i ∷ is) = datagram_of i.event ++ datagrams_of is

module _ {D F : Type 0} (decode : D → List ℕ → D × Option F) (first : D) (decode_us : F → ℕ)
    (fl : Doubles) where
  abbrev pub feed_each : List (List ℕ) → ℤ → VideoPipeline D F → VideoPipeline D F
  feed_each [] now_ms p = p
  feed_each (b ∷ bs) now_ms p = feed_each bs now_ms (feed decode b now_ms p)

  feed_prebuffered-pipeline :
      (p : VideoPipeline D F) (bs : List (List ℕ)) (now_ms : ℤ) (s : SdlClient D F)
      → (feed_prebuffered decode first decode_us fl p bs now_ms s).pipeline
        ≡ some (feed_each bs now_ms p)
  unfolding feed_prebuffered
  feed_prebuffered-pipeline p [] now_ms s = refl
  feed_prebuffered-pipeline p (b ∷ bs) now_ms s =
      feed_prebuffered-pipeline (feed decode b now_ms p) bs now_ms
        (feed_pipeline decode first decode_us fl p b now_ms s)

  -- A client without a pipeline stays without one, and keeps every datagram.
  abbrev pub Keeps : SdlClient D F → List (List ℕ) → Type 0
  Keeps s bs = (s.pipeline ≡ none) × (s.prebuffered ≡ bs)

  handle_transport-Keeps :
      (i : Incoming) (s : SdlClient D F)
      → s.pipeline ≡ none
      → Keeps
          (handle_transport decode first decode_us fl i s)
          (s.prebuffered ++ datagram_of i.event)
  unfolding handle_transport
  handle_transport-Keeps i s = go i.event s.pipeline
    where
      go :
          (ev : TransportEvent) (o : Option (VideoPipeline D F))
          → o ≡ none
          → Keeps
              (handle_transport decode first decode_us fl
                (record i { event = ev })
                (record s { pipeline = o }))
              (s.prebuffered ++ datagram_of ev)
      go connected o e = (e, sym (append-nil s.prebuffered))
      go (control_bytes bytes) o e = (e, sym (append-nil s.prebuffered))
      go (closed code) o e = (e, sym (append-nil s.prebuffered))
      go (datagram bytes) none e = (refl, refl)
      go (datagram bytes) (some p) e = absurd (ground arith)

  drain_events-Keeps :
      (is : List Incoming) (s : SdlClient D F)
      → s.pipeline ≡ none
      → Keeps (drain_events decode first decode_us fl is s) (s.prebuffered ++ datagrams_of is)
  unfolding drain_events
  drain_events-Keeps [] s e = (e, sym (append-nil s.prebuffered))
  drain_events-Keeps (i ∷ is) s e =
      let (still, kept) = handle_transport-Keeps i s e in
      let (after, all) =
        drain_events-Keeps is (handle_transport decode first decode_us fl i s) still in
      (
        after,
        all
            ∙ ap (λ l. l ++ datagrams_of is) kept
            ∙ append_assoc s.prebuffered (datagram_of i.event) (datagrams_of is),
      )

  media_for-pipeline :
      (o : Option (VideoPipeline D F)) (now_us now_ms : ℤ) (s : SdlClient D F)
      → o ≡ none
      → ((media_for decode first decode_us fl o now_us now_ms s).pipeline
          ≡ some (feed_each s.prebuffered now_ms (new_pipeline decode true first)))
        × ((media_for decode first decode_us fl o now_us now_ms s).prebuffered ≡ [])
  media_for-pipeline none now_us now_ms s e =
      (feed_prebuffered-pipeline (new_pipeline decode true first) s.prebuffered now_ms s, refl)
  media_for-pipeline (some p) now_us now_ms s e = absurd (ground arith)

  -- A client without a pipeline takes any events of the transport and then brings up the media path:
  -- the new pipeline has been fed every datagram that waited and every datagram among the events,
  -- each once and in the order in which they came, and none waits any more.
  pub start_media-drain_events :
      (is : List Incoming) (now_us now_ms : ℤ) (s : SdlClient D F)
      → s.pipeline ≡ none
      → let t =
          start_media decode first decode_us fl now_us now_ms
            (drain_events decode first decode_us fl is s) in
        (t.pipeline
          ≡ some (
              feed_each (s.prebuffered ++ datagrams_of is) now_ms (new_pipeline decode true first)))
        × (t.prebuffered ≡ [])
  unfolding start_media
  start_media-drain_events is now_us now_ms s e =
      let s1 = drain_events decode first decode_us fl is s in
      let (none_yet, all) = drain_events-Keeps is s e in
      let (fed, empty) = media_for-pipeline s1.pipeline now_us now_ms s1 none_yet in
      (fed ∙ ap (λ l. some (feed_each l now_ms (new_pipeline decode true first))) all, empty)
