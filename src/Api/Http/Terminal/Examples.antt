-- ===== src/Api/Http/Terminal/Examples.antt =====
-- The theorem on the bridge of a terminal at concrete frames.
use git_gym.Prelude.{true, false, none, some, [], ◌∷◌}
use git_gym.Prelude.Text.{codes}
use git_gym.Api.Http.Terminal.{
  Frame, text, other_type, close_error, cancelled, frame, read_failed, Bridge, run_bridge,
}
use git_gym.Api.Http.Terminal.Forwards.{PassesOn, bridge_forwards}

abbrev typed : Frame
typed = record { message_type = text; payload = codes "ls" }

abbrev ping : Frame
ping = record { message_type = other_type 9; payload = [] }

-- The browser types and leaves; the runner takes one write.
abbrev bridge : Bridge
bridge = record {
  to_runner = record {
    incoming = frame typed ∷ frame ping ∷ frame typed ∷ read_failed (close_error 1001 []) ∷ [];
    write_errors = none ∷ some cancelled ∷ [];
    delivered = [];
  };
  to_browser = record { incoming = frame typed ∷ []; write_errors = []; delivered = [] };
}

bridge_forwards_example : PassesOn (some cancelled) bridge (record {
  to_runner = record {
    incoming = read_failed (close_error 1001 []) ∷ [];
    write_errors = [];
    delivered = typed ∷ [];
  };
  to_browser = record { incoming = []; write_errors = []; delivered = typed ∷ [] };
})
unfolding run_bridge
bridge_forwards_example = bridge_forwards (true ∷ true ∷ false ∷ true ∷ true ∷ []) bridge
