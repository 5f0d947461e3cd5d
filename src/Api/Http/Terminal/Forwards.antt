-- ===== src/Api/Http/Terminal/Forwards.antt =====
-- What the bridge of PracticeTerminalWebsocket (handlers/terminal_ws.go) passes on.
use mathlib.Core.List.{append_assoc}
use mathlib.Core.Path.{subst}
use git_gym.Prelude.{
  ◌≡◌, ◌⊎◌, refl, sym, ap, ◌∙◌, inl, inr, Bool, true, false, Bool-cases, Option, none, some, List,
  [], ◌∷◌, ◌++◌, In, if◌then◌else◌,
}
use git_gym.Api.Http.Terminal.{
  MessageType, text, binary, other_type, Frame, BridgeError, Incoming, frame, read_failed,
  Direction, Bridge, is_forwarded, write_frame, proxy_step, run_bridge,
}

abbrev is_text_or_binary : MessageType → Bool
is_text_or_binary text = true
is_text_or_binary binary = true
is_text_or_binary (other_type n) = false

is_forwarded_lem : (t : MessageType) → is_text_or_binary t ≡ is_forwarded t
unfolding is_forwarded
is_forwarded_lem text = refl
is_forwarded_lem binary = refl
is_forwarded_lem (other_type n) = refl

-- The text and binary frames, in order.
abbrev pub forwarded_frames : List Incoming → List Frame
forwarded_frames [] = []
forwarded_frames (read_failed e ∷ incoming) = forwarded_frames incoming
forwarded_frames (frame f ∷ incoming) =
    if is_text_or_binary f.message_type
    then f ∷ forwarded_frames incoming
    else forwarded_frames incoming

-- What was delivered and what is to come is what it was before, in order.
abbrev pub Conserves : Direction → Direction → Type 0
Conserves d d' =
    d'.delivered ++ forwarded_frames d'.incoming ≡ d.delivered ++ forwarded_frames d.incoming

-- So it is but for one frame, whose write gave the error.
abbrev pub LosesOne : BridgeError → Direction → Direction → Type 0
LosesOne e d d' =
    (lost : Frame) × (d'.delivered ++ lost ∷ forwarded_frames d'.incoming
      ≡ d.delivered ++ forwarded_frames d.incoming)
    × In (some e) d.write_errors

-- What one frame or one turn does: the answers of the writes that are still to come are among the
-- ones before.
abbrev Proxied : Option BridgeError → Direction → Direction → Type 0
Proxied out d d' =
    (Conserves d d' × ((a : Option BridgeError) → In a d'.write_errors → In a d.write_errors))
    ⊎ ((e : BridgeError) × (out ≡ some e) × LosesOne e d d')

written :
    (f : Frame) (answers : List (Option BridgeError)) (d : Direction) (incoming : List Incoming)
    → d.write_errors ≡ answers
    → forwarded_frames d.incoming ≡ f ∷ forwarded_frames incoming
    → let out = write_frame f answers (record d { incoming = incoming }) in Proxied out.0 d out.1
unfolding write_frame
written f [] d incoming w h = inl (
  append_assoc d.delivered (f ∷ []) (forwarded_frames incoming)
      ∙ ap (λ xs. d.delivered ++ xs) (sym h),
  λ a there. there,
)
written f (none ∷ answers) d incoming w h = inl (
  append_assoc d.delivered (f ∷ []) (forwarded_frames incoming)
      ∙ ap (λ xs. d.delivered ++ xs) (sym h),
  λ a there. subst (In a) (sym w) (inr there),
)
written f (some e ∷ answers) d incoming w h =
    inr (e, refl, (f, ap (λ xs. d.delivered ++ xs) (sym h), subst (In (some e)) (sym w) (inl refl)))

step_conserves :
    (incoming : List Incoming) (d : Direction)
    → d.incoming ≡ incoming
    → let out = proxy_step incoming d in Proxied out.0 d out.1
unfolding proxy_step
step_conserves [] d h = inl (refl, λ a there. there)
step_conserves (read_failed e ∷ incoming) d h =
    inl (ap (λ xs. d.delivered ++ forwarded_frames xs) (sym h), λ a there. there)
step_conserves (frame f ∷ incoming) d h = elim (Bool-cases (is_forwarded f.message_type)) [
  | inl hit ↦
      (let e : forwarded_frames d.incoming ≡ f ∷ forwarded_frames incoming =
          ap forwarded_frames h ∙ rw (is_forwarded_lem f.message_type, hit) refl in
        rw hit (written f d.write_errors d incoming refl e))
  | inr miss ↦
      (let e : forwarded_frames d.incoming ≡ forwarded_frames incoming =
          ap forwarded_frames h ∙ rw (is_forwarded_lem f.message_type, miss) refl in
        rw miss (inl (ap (λ xs. d.delivered ++ xs) (sym e), λ a there. there)))
]

-- Both directions keep their frames, or the write whose error ended the bridge lost the one frame
-- that it was given, and the other direction keeps its frames.
abbrev pub PassesOn : Option BridgeError → Bridge → Bridge → Type 0
PassesOn out b b' =
    (Conserves b.to_runner b'.to_runner × Conserves b.to_browser b'.to_browser)
    ⊎ ((e : BridgeError) × (out ≡ some e)
        × ((LosesOne e b.to_runner b'.to_runner × Conserves b.to_browser b'.to_browser)
            ⊎ (Conserves b.to_runner b'.to_runner × LosesOne e b.to_browser b'.to_browser)))

runner_then :
    (out : Option BridgeError) (b b' : Bridge) (d : Direction)
    → Proxied none b.to_runner d
    → PassesOn out (record b { to_runner = d }) b'
    → PassesOn out b b'
runner_then out b b' d (inr (e, never, _)) rest = absurd cc
runner_then out b b' d (inl (kept, fewer)) (inl (runner, browser)) = inl (runner ∙ kept, browser)
runner_then out b b' d (inl (kept, fewer)) (inr (e, stops, inl ((lost, all, gave), browser))) =
    inr (e, stops, inl ((lost, all ∙ kept, fewer (some e) gave), browser))
runner_then out b b' d (inl (kept, fewer)) (inr (e, stops, inr (runner, browser))) =
    inr (e, stops, inr (runner ∙ kept, browser))

browser_then :
    (out : Option BridgeError) (b b' : Bridge) (d : Direction)
    → Proxied none b.to_browser d
    → PassesOn out (record b { to_browser = d }) b'
    → PassesOn out b b'
browser_then out b b' d (inr (e, never, _)) rest = absurd cc
browser_then out b b' d (inl (kept, fewer)) (inl (runner, browser)) = inl (runner, browser ∙ kept)
browser_then out b b' d (inl (kept, fewer)) (inr (e, stops, inl (runner, browser))) =
    inr (e, stops, inl (runner, browser ∙ kept))
browser_then out b b' d (inl (kept, fewer)) (inr (e, stops, inr (runner, (lost, all, gave)))) =
    inr (e, stops, inr (runner, (lost, all ∙ kept, fewer (some e) gave)))

-- For every order in which the two goroutines take turns, until one of them fails: in both
-- directions, what was delivered, with the text and binary frames that are still to be read, is what
-- was delivered before with those that were to be read, in order; or the bridge ends with the error
-- that one write gave, one direction has lost the frame of this write alone, and the other has lost
-- nothing.
pub bridge_forwards :
    (turns : List Bool) (b : Bridge) → let out = run_bridge turns b in PassesOn out.0 b out.1
unfolding run_bridge
bridge_forwards [] b = inl (refl, refl)
bridge_forwards (true ∷ turns) b =
    go (proxy_step b.to_runner.incoming b.to_runner)
      (step_conserves b.to_runner.incoming b.to_runner refl)
      (λ d. bridge_forwards turns (record b { to_runner = d }))
  where
    go :
        (step : Option BridgeError × Direction)
        → Proxied step.0 b.to_runner step.1
        → ((d : Direction)
            → let out = run_bridge turns (record b { to_runner = d }) in
              PassesOn out.0 (record b { to_runner = d }) out.1)
        → let rest = run_bridge turns (record b { to_runner = step.1 }) in
          let out : Option BridgeError × Bridge = elim step.0 [
            | some e ↦ (some e, record b { to_runner = step.1 })
            | none ↦ rest
          ] in
          PassesOn out.0 b out.1
    go (none, d) h again =
        let (out, b') = run_bridge turns (record b { to_runner = d }) in
        runner_then out b b' d h (again d)
    go (some e, d) (inl (kept, _)) again = inl (kept, refl)
    go (some e, d) (inr (x, stops, lost)) again = inr (x, stops, inl (lost, refl))
bridge_forwards (false ∷ turns) b =
    go (proxy_step b.to_browser.incoming b.to_browser)
      (step_conserves b.to_browser.incoming b.to_browser refl)
      (λ d. bridge_forwards turns (record b { to_browser = d }))
  where
    go :
        (step : Option BridgeError × Direction)
        → Proxied step.0 b.to_browser step.1
        → ((d : Direction)
            → let out = run_bridge turns (record b { to_browser = d }) in
              PassesOn out.0 (record b { to_browser = d }) out.1)
        → let rest = run_bridge turns (record b { to_browser = step.1 }) in
          let out : Option BridgeError × Bridge = elim step.0 [
            | some e ↦ (some e, record b { to_browser = step.1 })
            | none ↦ rest
          ] in
          PassesOn out.0 b out.1
    go (none, d) h again =
        let (out, b') = run_bridge turns (record b { to_browser = d }) in
        browser_then out b b' d h (again d)
    go (some e, d) (inl (kept, _)) again = inl (refl, kept)
    go (some e, d) (inr (x, stops, lost)) again = inr (x, stops, inr (refl, lost))
