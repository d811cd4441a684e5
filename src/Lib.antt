-- ===== src/Lib.antt =====
-- The Loom client: the protocol layer (proto/), the session core (core/), and the loops of the three
-- clients that drive them (sdl/, quest/, quest-spatial/). A transport hands control bytes to the
-- session and media datagrams to a video receiver for each stream, and both hand back values: actions
-- to carry out, access units to decode, IDR requests to send. A client takes the events, carries the
-- actions out, brings a decoder up for each stream and reports once a second.
--
-- Result, Cbor, Datagram, Control, Reassembly and ClockSync model the headers and sources of the same
-- names in proto/include/loom/proto and proto/src; Keymap, Hex and Errors model keymap.cpp, hex.hpp
-- and errors.hpp there. Session models core/src/session.cpp (Session.Config its parse_config,
-- Session.Ops its operations, with Session.Ops.Messages), VideoReceiver models
-- core/src/video_receiver.cpp (VideoReceiver.Assembly its frames).
--
-- Of the SDL client, VideoPipeline models sdl/src/video_pipeline.cpp, Metrics sdl/src/metrics.hpp,
-- SdlDecoder and SdlRenderer sdl/src/decoder.cpp and renderer.cpp, and SdlClient the loop of
-- sdl/src/main.cpp.
--
-- Of the Quest client, Transport models quest/src/quic_transport.cpp, NetSession the pump of
-- quest/src/net_session.cpp on a list of events and NetSession.Linked the pump on the transport,
-- HevcDecoder quest/src/hevc_decoder.cpp, XrApp the windows and reports of quest/src/xr_app.cpp,
-- XrApp.Events its configuration line and its events with quest/src/main.cpp, XrApp.Lines the text
-- of the overlay, XrApp.Frame a frame, XrApp.Setup the set-up and the loop, Overlay
-- quest/src/overlay.cpp (Overlay.Font its font, Overlay.Layer the object),
-- and SurfaceTexture and EglContext quest/src/surface_texture.cpp and egl_context.cpp. Bridge models
-- both threads of quest-spatial/app/src/main/cpp/jni_bridge.cpp (Bridge.Panels its panels).
--
-- OrderedMap is std::map, Text reads literals, Handles is the protocol of what is taken from a library
-- and given back, Common holds what all share (Common.Memory blocks of bytes).
--
-- The children of a module that are named for what they prove (RoundTrip, Total, Accepts, Window,
-- Lacking, Delivery, Offset, Filter, Stream, Phases, Order, Handshake, Queue, Requests, Routing, Table,
-- Fragments, Completion, Streamed, LastRow, Streams, Slot, Windows of Metrics and of Bridge, Prebuffer,
-- InFlight, Inputs, Decoders, Stopping, Leaked, Served, Levels, Overlaid, Paint, Bands, Pixels, Picture, Bounds,
-- Planes, Nulls, Lifetime, Choice, Framed, Loop, Reorder) hold no code.
--
-- The session calls Control to read and write frames and ClockSync for CLOCK_PONG; Control calls
-- Cbor. The video receiver calls Datagram and Reassembly. The pump and the loop of the SDL client
-- call the session and the video receivers; the decode loops take what a video receiver queues;
-- XrApp and Bridge call the pump.
--
-- How the code is read:
-- * A byte string and a text are a List ℕ; a decoder returns what it leaves of its input in place of
--   a position in it.
-- * A double is its 64-bit pattern; the conversions between float and double, which the language
--   gives, are defined on patterns, rounding to the nearest, ties to even.
-- * An int64_t is a ℤ; what is cast is wrapped (to_i64, to_u64), and the times are taken not to
--   overflow. An unsigned counter wraps at 2 ^ 64.
-- * An operation takes the object as its last argument and returns it; a vector of actions or events
--   is a list, and calls of on_idr_ are recorded in a list.
-- * The pixel buffer of the overlay is the list of its bytes, and a write outside of it is none; the
--   conversions of snprintf are a parameter.
-- * A method that holds the lock is one step; a blocked pop_au is the answer `waits`. The decode loop
--   of the source then stays in it with an input buffer reserved; the round of the model ends without
--   a change, and the next one drains and asks for a buffer again.
-- * A call of SDL that is handed a texture which was not made is recorded as one with a null pointer.
-- * An exception that nothing catches, of std::stoi, ends the program: the operation is none.
-- * std::sort of the entries of a map is an insertion sort by the encoded keys. Where two keys are
--   the same, std::sort may leave their entries in any order; here the one that was behind comes first.
-- * What msquic, MediaCodec, OpenXR and the clock answer is an argument of the operation that asks;
--   what they are given is recorded in a list. Arithmetic of doubles, the conversion of nanoseconds
--   to a float and std::stoi are parameters. A round of a loop is one step; where two threads share
--   state, their steps are taken in any order.
--
-- Fuel: Cbor.Decode takes 2 n + 1 for n bytes, since an item takes a byte at least and a list one
-- more call for each item; the loop of on_control_bytes takes n + 1, since a round takes four bytes.
-- The code itself recurses to the depth of the input. The levels of a swapchain take 32 rounds, the
-- bits of a uint32_t.
--
-- Not modelled: what draws through OpenGL ES (gl_scene, and in xr_app the shaders, the matrices of the
-- views, the drawing into an image and the destructor); libavcodec (VideoPipeline takes the decoder
-- as a parameter, SdlDecoder the answers); sdl/src/msquic_transport.cpp, which is quic_transport.cpp
-- under another name; text that is printed or logged; the adapter of the conformance vectors, which runs on
-- a JSON library; exceptions of an allocation that fails.
pub mod Common
pub mod Result
pub mod Cbor
pub mod Datagram
pub mod Control
pub mod OrderedMap
pub mod Reassembly
pub mod ClockSync
pub mod Session
pub mod VideoReceiver
pub mod HevcDecoder
pub mod Transport
pub mod NetSession
pub mod VideoPipeline
pub mod Text
pub mod Errors
pub mod Hex
pub mod Keymap
pub mod Tests
pub mod Bridge
pub mod XrApp
pub mod SdlDecoder
pub mod SdlRenderer
pub mod Handles
pub mod SurfaceTexture
pub mod EglContext
pub mod SdlClient
pub mod Metrics
pub mod Overlay
