-- ===== src/Session/Phases.antt =====
-- core/src/session.cpp: the order of the milestones among the actions of a session.
use loom_client.Common.{
  ℕ, suc, zero, ℤ, pos, ◌+◌, to_u64, to_i64, ◌||◌, ◌≡◌, refl, sym, ap, ◌∙◌, Bool, true, false, not,
  ◌&&◌, Option, none, some, List, [], ◌∷◌, ◌++◌, append-nil, append_assoc, length, ltb, ◌==◌,
  if◌then◌else◌, Bool-cases, inl, inr,
}
use loom_client.Control
use loom_client.Errors.{protocol_violation, internal}
use loom_client.Session.Config.{parse_config, find_int, value_or}
use loom_client.Result.{Result, ok, err}
use loom_client.Cbor.{Fields, integer}
use loom_client.Control.{
  encode_frame, Decoded, Kind, ControlError, message, ignored, decode_frame, frame_len,
  max_frame_body,
}
use loom_client.Session.Ops.{
  is_one, single, push, Session, State, Step, Action, connecting, negotiating, streaming, closed,
  failed, welcome, config, start, send_control, established, media_expected, config_changed,
  fatal_action, closed_action, fatal, send_config_ack, setup, apply_config, close_sample,
  handle_message, handle_decoded, handle_result, handle_frame, is_over, is_streaming,
  is_negotiating, drain,
}
use loom_client.Session.Rounds.{set_rx, first_frame, behind_frame}

-- Where a session is, as far as its milestones tell.
pub data Phase : Type 0 where
  idle greeted media ended : Phase

-- One action more: `none` where it must not come. ESTABLISHED comes first, then MEDIA_EXPECTED, then
-- CONFIG_CHANGED any number of times; FATAL or CLOSED ends the session and nothing follows it.
abbrev pub next : Action → Phase → Option Phase
next a ended = none
next (send_control b) p = some p
next established idle = some greeted
next media_expected greeted = some media
next config_changed media = some media
next (fatal_action c) p = some ended
next closed_action p = some ended
next _ _ = none

abbrev and_then : Option Phase → (Phase → Option Phase) → Option Phase
and_then none k = none
and_then (some p) k = k p

abbrev pub replay : List Action → Phase → Option Phase
replay [] p = some p
replay (a ∷ as') p = and_then (next a p) (λ q. replay as' q)

abbrev pub phase_of : State → Step → Phase
phase_of connecting st = idle
phase_of negotiating welcome = idle
phase_of negotiating config = greeted
phase_of negotiating start = greeted
phase_of streaming st = media
phase_of closed st = ended
phase_of failed st = ended

abbrev pub phase : Session → Phase
phase s = phase_of s.state s.step

-- `s'` has emitted actions after those of `s`, in a legal order.
pub record Extends (s s' : Session) : Type 0 where
  pub emitted : List Action
  pub appended : s'.out ≡ s.out ++ emitted
  pub legal : replay emitted (phase s) ≡ some (phase s')

pub Extends-refl : (s : Session) → Extends s s
Extends-refl s = record { emitted = []; appended = sym (append-nil s.out); legal = refl }

and_then-map :
    (o : Option Phase) (k l : Phase → Option Phase) (q : Phase) (z : Option Phase)
    → ((r : Phase) → k r ≡ some q → l r ≡ z)
    → and_then o k ≡ some q
    → and_then o l ≡ z
and_then-map none k l q z f e = cc
and_then-map (some r) k l q z f e = f r e

replay-append :
    (as' bs : List Action) (p q : Phase)
    → replay as' p ≡ some q
    → replay (as' ++ bs) p ≡ replay bs q
replay-append [] bs p q h = cc
replay-append (a ∷ as') bs p q h =
    and_then-map (next a p) _ _ q (replay bs q) (λ r e. replay-append as' bs r q e) h

pub Extends-trans : (s s' s2 : Session) → Extends s s' → Extends s' s2 → Extends s s2
Extends-trans s s' s2 x y = record {
  emitted = x.emitted ++ y.emitted;
  appended =
      y.appended ∙ ap (λ o. o ++ y.emitted) x.appended ∙ append_assoc s.out x.emitted y.emitted;
  legal = replay-append x.emitted y.emitted (phase s) (phase s') x.legal ∙ y.legal;
}

-- One action, behind which the session is where `next` says.
pub Extends-one :
    (a : Action) (s s' : Session)
    → s'.out ≡ s.out ++ a ∷ []
    → next a (phase s) ≡ some (phase s')
    → Extends s s'
Extends-one a s s' e h = record {
  emitted = a ∷ [];
  appended = e;
  legal = ap (λ o. and_then o (λ q. some q)) h;
}

pub closes :
    (st : State) (p : Step) → is_over st ≡ false → next closed_action (phase_of st p) ≡ some ended
closes connecting p h = refl
closes negotiating welcome h = refl
closes negotiating config h = refl
closes negotiating start h = refl
closes streaming p h = refl
closes closed p h = cc
closes failed p h = cc

pub fails :
    (c : ℕ) (st : State) (p : Step)
    → is_over st ≡ false
    → next (fatal_action c) (phase_of st p) ≡ some ended
fails c connecting p h = refl
fails c negotiating welcome h = refl
fails c negotiating config h = refl
fails c negotiating start h = refl
fails c streaming p h = refl
fails c closed p h = cc
fails c failed p h = cc

pub sends :
    (b : List ℕ) (st : State) (p : Step)
    → is_over st ≡ false
    → next (send_control b) (phase_of st p) ≡ some (phase_of st p)
sends b connecting p h = refl
sends b negotiating welcome h = refl
sends b negotiating config h = refl
sends b negotiating start h = refl
sends b streaming p h = refl
sends b closed p h = cc
sends b failed p h = cc

fatal-Extends : (c : ℕ) (s : Session) → is_over s.state ≡ false → Extends s (fatal c s)
unfolding fatal
fatal-Extends c s h = Extends-one (fatal_action c) s (fatal c s) refl (fails c s.state s.step h)

abbrev ack_of : Fields → List ℕ
ack_of body =
    encode_frame Control.config_ack (single (integer (to_i64 (parse_config body).generation)))

apply_config-Extends :
    (body : Fields) (s : Session) → is_over s.state ≡ false → Extends s (apply_config body s)
unfolding apply_config send_config_ack
apply_config-Extends body s h =
    let ack = ack_of body in
    Extends-one (send_control ack) s (apply_config body s) refl (sends ack s.state s.step h)

-- A set-up message, where the session expects the one of `step`.
setup-Extends :
    (t : ℕ) (body : Fields) (p : Step) (s : Session)
    → s.state ≡ negotiating
    → s.step ≡ p
    → Extends s (setup p t body s)
unfolding setup apply_config send_config_ack
setup-Extends t body welcome s n e =
    let live : is_over s.state ≡ false = rw n in
    elim (Bool-cases (not (t == Control.welcome) || not (is_one (find_int body (pos 0))))) [
      | inl bad ↦ rw bad (fatal-Extends protocol_violation s live)
      | inr good ↦ rw good (Extends-one established s _ refl (rw (n, e)))
    ]
setup-Extends t body config s n e =
    let live : is_over s.state ≡ false = rw n in
    elim (Bool-cases (not (t == Control.config))) [
      | inl bad ↦ rw bad (fatal-Extends protocol_violation s live)
      | inr good ↦ rw good (Extends-one (send_control (ack_of body)) s _ refl (rw (n, e)))
    ]
setup-Extends t body start s n e =
    let live : is_over s.state ≡ false = rw n in
    elim (Bool-cases (not (t == Control.start))) [
      | inl bad ↦ rw bad (fatal-Extends protocol_violation s live)
      | inr good ↦ rw good (Extends-one media_expected s _ refl (rw (n, e)))
    ]

pub if-Extends :
    (s : Session) (b : Bool) (x y : Session)
    → (b ≡ true → Extends s x)
    → (b ≡ false → Extends s y)
    → Extends s (if b then x else y)
if-Extends s true x y h k = h refl
if-Extends s false x y h k = k refl

close_sample-Extends :
    (o0 o1 o2 : Option ℤ) (now : ℤ) (s : Session) → Extends s (close_sample o0 o1 o2 now s)
unfolding close_sample
close_sample-Extends (some a) (some b) (some c) now s = record {
  emitted = [];
  appended = sym (append-nil s.out);
  legal = refl;
}
close_sample-Extends _ _ _ now s = Extends-refl s

negotiates : (st : State) → not (is_negotiating st) ≡ false → st ≡ negotiating
negotiates negotiating h = refl
negotiates connecting h = cc
negotiates streaming h = cc
negotiates closed h = cc
negotiates failed h = cc

streams : (b : Bool) (st : State) → (b && is_streaming st) ≡ true → st ≡ streaming
streams true streaming h = refl
streams true connecting h = cc
streams true negotiating h = cc
streams true closed h = cc
streams true failed h = cc
streams false st h = cc

-- CONFIG in the middle of a stream: the ACK, then CONFIG_CHANGED.
reconfigure-Extends :
    (body : Fields) (s : Session)
    → s.state ≡ streaming
    → Extends s (push config_changed (apply_config body s))
unfolding apply_config send_config_ack
reconfigure-Extends body s n =
    Extends-trans s (apply_config body s) _ (apply_config-Extends body s (rw n))
      (Extends-one config_changed (apply_config body s) _ refl (rw n))

handle_message-Extends :
    (t : ℕ) (body : Fields) (now : ℤ) (s : Session)
    → is_over s.state ≡ false
    → Extends s (handle_message t body now s)
unfolding handle_message
handle_message-Extends t body now s h =
    let failed_by : (c : ℕ) → Extends s (push (fatal_action c) (record s { state = failed })) =
      λ c. Extends-one (fatal_action c) s _ refl (fails c s.state s.step h) in
    if-Extends s (t == Control.bye) _ _
      (λ e. Extends-one closed_action s _ refl (closes s.state s.step h))
      λ e.
        if-Extends s (t == Control.error_msg) _ _
          (λ f. failed_by (to_u64 (value_or (find_int body (pos 0)) (pos internal))))
          λ f.
            if-Extends s (t == Control.clock_pong) _ _ (λ g. close_sample-Extends _ _ _ now s)
              λ g.
                if-Extends s (t == Control.config && is_streaming s.state) _ _
                  (λ k. reconfigure-Extends body s (streams _ s.state k))
                  λ k.
                    if-Extends s (not (is_negotiating s.state)) _ _ (λ l. Extends-refl s)
                      (λ l. setup-Extends t body s.step s (negotiates s.state l) refl)

handle_frame-Extends :
    (b : List ℕ) (now : ℤ) (s : Session)
    → is_over s.state ≡ false
    → Extends s (handle_frame b now s)
unfolding handle_frame
handle_frame-Extends b now s h = go (decode_frame b)
  where
    by_kind : (k : Kind) (d : Decoded) → Extends s (handle_decoded k d now s)
    by_kind message d = handle_message-Extends d.msg_type d.body now s h
    by_kind ignored d = Extends-refl s

    go : (r : Result Decoded ControlError) → Extends s (handle_result r now s)
    go (err e) = fatal-Extends protocol_violation s h
    go (ok d) = by_kind d.kind d

set_rx-Extends : (r : List ℕ) (s s' : Session) → Extends s s' → Extends s (set_rx r s')
set_rx-Extends r s s' x = record { emitted = x.emitted; appended = x.appended; legal = x.legal }

pub drain-Extends :
    (f : ℕ) (now : ℤ) (b : List ℕ) (s : Session)
    → is_over s.state ≡ false
    → Extends s (drain f now b s)
unfolding drain
drain-Extends zero now b s h = set_rx-Extends b s s (Extends-refl s)
drain-Extends (suc f) now b s h =
    let handled = handle_frame-Extends (first_frame b) now s h in
    if-Extends s (ltb (length b) 4) _ _ (λ x. set_rx-Extends b s s (Extends-refl s))
      λ x.
        if-Extends s (ltb max_frame_body (frame_len b)) _ _
          (λ y. set_rx-Extends [] s _ (fatal-Extends protocol_violation s h))
          λ y.
            if-Extends s (ltb (length b) (4 + frame_len b)) _ _
              (λ z. set_rx-Extends b s s (Extends-refl s))
              λ z.
                if-Extends s (is_over (handle_frame (first_frame b) now s).state) _ _
                  (λ over. set_rx-Extends [] s _ handled)
                  (λ live.
                    Extends-trans s (handle_frame (first_frame b) now s) _ handled
                      (drain-Extends f now (behind_frame b) _ live))
