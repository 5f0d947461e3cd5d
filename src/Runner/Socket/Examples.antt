-- ===== src/Runner/Socket/Examples.antt =====
-- The theorems on the tracker of a terminal's output at concrete chunks.
use git_gym.Prelude.{◌≡◌, refl, inr, [], ◌++◌}
use git_gym.Prelude.Text.{Text, codes}
use git_gym.Runner.Socket.Marker.{terminal_command_exit_marker, could_be_exit_marker_fragment}
use git_gym.Runner.Socket.Tracker.{split_lines, ingest_output}
use git_gym.Runner.Socket.Tracker.Lines.{ingest_output-append, split_report_leaks}

-- A chunk that ends within the marker.
abbrev first_chunk : Text
first_chunk = codes "done\n__GITGYM"

abbrev second_chunk : Text
second_chunk = codes "_COMMAND_EXIT__:0:bHM=\n"

ingest_output-append_example : ingest_output [] (first_chunk ++ second_chunk) ≡ record {
  output =
      (ingest_output [] first_chunk).output
      ++ (ingest_output (ingest_output [] first_chunk).pending second_chunk).output;
  completions =
      (ingest_output [] first_chunk).completions
      ++ (ingest_output (ingest_output [] first_chunk).pending second_chunk).completions;
  pending = (ingest_output (ingest_output [] first_chunk).pending second_chunk).pending;
}
unfolding split_lines could_be_exit_marker_fragment
ingest_output-append_example = ingest_output-append [] first_chunk second_chunk (inr refl)

split_report_leaks_example :
    ingest_output [] (terminal_command_exit_marker ++ codes ":0")
    ≡ record { output = terminal_command_exit_marker ++ codes ":0"; completions = []; pending = [] }
split_report_leaks_example = split_report_leaks b':' (codes "0") (refl, (refl, tt))
