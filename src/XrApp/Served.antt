-- ===== src/XrApp/Served.antt =====
-- quest/src/xr_app.cpp, quest/src/net_session.cpp: the windows and the streams that the session serves.
use loom_client.Common.{
  ℕ, ◌==◌, ==_refl, bit_and, ◌≡◌, refl, sym, ◌∙◌, ap, subst, arith, true, false, Bool-cases, inl,
  inr, Option, none, some, List, [], ◌∷◌, ◌++◌, append-nil, append_assoc, All,
}
use loom_client.Session.Config.{SessionConfig, StreamConfig}
use loom_client.VideoReceiver.{VideoReceiver, new_receiver}
use loom_client.NetSession.{
  NetSession, add_receivers, add_receiver, build_extra_receivers, receiver, stream_ids,
  feature_multi_display,
}
use loom_client.XrApp.{
  DesktopWindow, Makes, create_swapchain, window_for, add_windows, activate, activate_all,
  start_decoder,
}

abbrev pub window_ids : List DesktopWindow → List ℕ
window_ids [] = []
window_ids (w ∷ ws) = w.stream_id ∷ window_ids ws

abbrev pub config_ids : List StreamConfig → List ℕ
config_ids [] = []
config_ids (c ∷ cs) = c.stream_id ∷ config_ids cs

abbrev pub IsActive : DesktopWindow → Type 0
IsActive w = w.decoder_active ≡ true

-- Everything is made for every stream.
pub record MakesAll (mk : Makes) : Type 0 where
  pub swapchain : (id : ℕ) → mk.levels id ≡ true
  pub surface : (id : ℕ) → mk.surface id ≡ true
  pub decoder : (id : ℕ) → mk.decoder id ≡ true

abbrev Serves : List (ℕ × VideoReceiver) → ℕ → Type 0
Serves rs id = (r : VideoReceiver) × (receiver id rs ≡ some r)

stream_ids-append :
    (rs qs : List (ℕ × VideoReceiver)) → stream_ids (rs ++ qs) ≡ stream_ids rs ++ stream_ids qs
unfolding stream_ids
stream_ids-append [] qs = refl
stream_ids-append ((sid, r) ∷ rs) qs = ap (λ l. sid ∷ l) (stream_ids-append rs qs)

stream_ids-add_receivers :
    (cs : List StreamConfig) (rs : List (ℕ × VideoReceiver))
    → stream_ids (add_receivers cs rs) ≡ stream_ids rs ++ config_ids cs
unfolding add_receivers stream_ids
stream_ids-add_receivers [] rs = sym (append-nil (stream_ids rs))
stream_ids-add_receivers (c ∷ cs) rs =
    stream_ids-add_receivers cs (add_receiver c.stream_id rs)
    ∙ ap (λ l. l ++ config_ids cs)
        (stream_ids-append rs ((c.stream_id, new_receiver true c.stream_id) ∷ []))
    ∙ append_assoc (stream_ids rs) (c.stream_id ∷ []) (config_ids cs)

receiver-append :
    (id : ℕ) (rs qs : List (ℕ × VideoReceiver)) (r : VideoReceiver)
    → receiver id rs ≡ some r
    → receiver id (rs ++ qs) ≡ some r
unfolding receiver
receiver-append id [] qs r e = absurd (ground arith)
receiver-append id ((sid, q) ∷ rs) qs r e = elim (Bool-cases (sid == id)) [
  | inl same ↦ rw same (rw same at e)
  | inr other ↦ rw other (receiver-append id rs qs r (rw other at e))
]

new-Serves : (id : ℕ) (rs : List (ℕ × VideoReceiver)) → Serves (add_receiver id rs) id
unfolding receiver
new-Serves id [] = (new_receiver true id, rw (==_refl id))
new-Serves id ((sid, q) ∷ rs) = elim (Bool-cases (sid == id)) [
  | inl same ↦ (q, rw same)
  | inr other ↦ let (r, e) = new-Serves id rs in (r, rw other e)
]

add_receivers-Serves :
    (id : ℕ) (cs : List StreamConfig) (rs : List (ℕ × VideoReceiver))
    → Serves rs id
    → Serves (add_receivers cs rs) id
unfolding add_receivers
add_receivers-Serves id [] rs h = h
add_receivers-Serves id (c ∷ cs) rs (r, e) =
    add_receivers-Serves id cs (add_receiver c.stream_id rs)
      (r, receiver-append id rs ((c.stream_id, new_receiver true c.stream_id) ∷ []) r e)

-- Every display of the CONFIG is served.
displays-Serves :
    (cs : List StreamConfig) (rs : List (ℕ × VideoReceiver))
    → All (Serves (add_receivers cs rs)) (config_ids cs)
unfolding add_receivers
displays-Serves [] rs = tt
displays-Serves (c ∷ cs) rs = (
  add_receivers-Serves c.stream_id cs (add_receiver c.stream_id rs) (new-Serves c.stream_id rs),
  displays-Serves cs (add_receiver c.stream_id rs),
)

window_ids-append :
    (ws vs : List DesktopWindow) → window_ids (ws ++ vs) ≡ window_ids ws ++ window_ids vs
window_ids-append [] vs = refl
window_ids-append (w ∷ ws) vs = ap (λ l. w.stream_id ∷ l) (window_ids-append ws vs)

module _ (mk : Makes) (all : MakesAll mk) where
  window_for-ids :
      (c : StreamConfig) (rs : List (ℕ × VideoReceiver))
      → Serves rs c.stream_id
      → window_ids (window_for mk c (receiver c.stream_id rs)) ≡ c.stream_id ∷ []
  unfolding window_for create_swapchain
  window_for-ids c rs (r, e) = rw (e, all.swapchain c.stream_id, all.surface c.stream_id)

  add_windows-ids :
      (cs : List StreamConfig) (rs : List (ℕ × VideoReceiver)) (ws : List DesktopWindow)
      → All (Serves rs) (config_ids cs)
      → window_ids (add_windows mk rs cs ws) ≡ window_ids ws ++ config_ids cs
  unfolding add_windows
  add_windows-ids [] rs ws h = sym (append-nil (window_ids ws))
  add_windows-ids (c ∷ cs) rs ws (one, h) =
      let new = window_for mk c (receiver c.stream_id rs) in
      add_windows-ids cs rs (ws ++ new) h
      ∙ ap (λ l. l ++ config_ids cs)
          (window_ids-append ws new ∙ ap (λ l. window_ids ws ++ l) (window_for-ids c rs one))
      ∙ append_assoc (window_ids ws) (c.stream_id ∷ []) (config_ids cs)

  activate-id :
      (o : Option VideoReceiver) (w : DesktopWindow) → (activate mk o w).stream_id ≡ w.stream_id
  activate-id none w = refl
  activate-id (some rx) w = rw (all.decoder w.stream_id)

  activate-IsActive :
      (w : DesktopWindow) (rs : List (ℕ × VideoReceiver))
      → Serves rs w.stream_id
      → IsActive (activate mk (receiver w.stream_id rs) w)
  activate-IsActive w rs (r, e) = rw (e, all.decoder w.stream_id)

  activate_all-ids :
      (rs : List (ℕ × VideoReceiver)) (ws : List DesktopWindow)
      → window_ids (activate_all mk rs ws) ≡ window_ids ws
  unfolding activate_all
  activate_all-ids rs [] = refl
  activate_all-ids rs (w ∷ ws) =
      rw (activate-id (receiver w.stream_id rs) w, activate_all-ids rs ws)

  activate_all-IsActive :
      (rs : List (ℕ × VideoReceiver)) (ws : List DesktopWindow)
      → All (Serves rs) (window_ids ws)
      → All IsActive (activate_all mk rs ws)
  unfolding activate_all
  activate_all-IsActive rs [] h = tt
  activate_all-IsActive rs (w ∷ ws) (one, h) =
      (activate-IsActive w rs one, activate_all-IsActive rs ws h)

  -- Where multi-display is on, a session with the primary receiver only builds the receivers of the
  -- CONFIG, and an app with the primary window only starts its decoders. If all that it asks for is
  -- made, it has one window for each stream that the session serves, in the same order, and the
  -- decoder of each is active.
  pub start_decoder-served :
      (s : NetSession) (r : VideoReceiver) (cfg : SessionConfig) (w : DesktopWindow)
      → (bit_and s.session.active_features feature_multi_display == 0) ≡ false
      → let net = build_extra_receivers (record s {
        extra_receivers_built = false;
        receivers = (0, r) ∷ [];
        session = record s.session { config = some cfg };
      }) in
        let ws = start_decoder mk net (record w { stream_id = 0 } ∷ []) in
        (window_ids ws ≡ stream_ids net.receivers) × All IsActive ws
  unfolding build_extra_receivers start_decoder stream_ids receiver
  start_decoder-served s r cfg w multi =
      let rs = add_receivers cfg.extra_streams ((0, r) ∷ []) in
      let primary = record w { stream_id = 0 } ∷ [] in
      let ws = add_windows mk rs cfg.extra_streams primary in
      let served = displays-Serves cfg.extra_streams ((0, r) ∷ []) in
      let ids = add_windows-ids cfg.extra_streams rs primary served in
      let first : Serves rs 0 = add_receivers-Serves 0 cfg.extra_streams ((0, r) ∷ []) (r, refl) in
      let streams = stream_ids-add_receivers cfg.extra_streams ((0, r) ∷ []) in
      rw multi (
        activate_all-ids rs ws ∙ ids ∙ sym streams,
        activate_all-IsActive rs ws (subst (All (Serves rs)) (sym ids) (first, served)),
      )
