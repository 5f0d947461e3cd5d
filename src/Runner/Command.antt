-- ===== src/Runner/Command.antt =====
-- services/runner/internal/engine/commands.go: the command line is split into arguments, and only
-- `git` is run. Runes are numbers.
pub mod Parse
pub mod Roundtrip
pub mod Run
