-- ===== src/Runtime.antt =====
-- internal/runtime/agent.go: the agent runtimes and the session modes.
pub mod Labels
use rascal.Prelude.{Bool, true, false, Option, none, some, List, [], ◌∷◌}
use rascal.Text.{Text, codes, normal, switch}
use rascal.Trigger.{Name, enables_pr_only_session}

pub data Runtime : Type 0 where
  goose_codex codex claude goose_claude : Runtime
  other : Text → Runtime

unfoldable pub runtime_text : Runtime → Text
runtime_text goose_codex = codes "goose-codex"
runtime_text codex = codes "codex"
runtime_text claude = codes "claude"
runtime_text goose_claude = codes "goose-claude"
runtime_text (other s) = s

abbrev runtime_cases : List (Text × Option Runtime)
runtime_cases =
    ([], some goose_codex)
    ∷ (codes "goose-codex", some goose_codex)
    ∷ (codes "goose", some goose_codex)
    ∷ (codes "codex", some codex)
    ∷ (codes "claude", some claude)
    ∷ (codes "goose-claude", some goose_claude)
    ∷ []

-- `none` is the error for an unknown runtime.
unfoldable pub parse_runtime : Text → Option Runtime
unfolding switch
parse_runtime raw = switch (normal raw) runtime_cases none

abbrev pub or_goose_codex : Option Runtime → Runtime
or_goose_codex none = goose_codex
or_goose_codex (some r) = r

unfoldable pub normalize_runtime : Text → Runtime
unfolding parse_runtime
normalize_runtime raw = or_goose_codex (parse_runtime raw)

-- `Runtime.String`.
unfoldable pub string : Runtime → Text
unfolding runtime_text normalize_runtime
string r = runtime_text (normalize_runtime (runtime_text r))

pub data SessionMode : Type 0 where
  off pr_only all : SessionMode

abbrev mode_cases : List (Text × Option SessionMode)
mode_cases =
    ([], some off)
    ∷ (codes "off", some off)
    ∷ (codes "pr-only", some pr_only)
    ∷ (codes "all", some all)
    ∷ []

unfoldable pub parse_session_mode : Text → Option SessionMode
unfolding switch
parse_session_mode raw = switch (normal raw) mode_cases none

abbrev or_off : Option SessionMode → SessionMode
or_off none = off
or_off (some m) = m

unfoldable pub normalize_session_mode : Text → SessionMode
unfolding parse_session_mode
normalize_session_mode raw = or_off (parse_session_mode raw)

abbrev enabled_for : SessionMode → Bool → Bool
enabled_for all follow_up = true
enabled_for pr_only follow_up = follow_up
enabled_for off follow_up = false

unfoldable pub session_enabled : Text → Name → Bool
unfolding normalize_session_mode enables_pr_only_session
session_enabled mode trigger =
    enabled_for (normalize_session_mode mode) (enables_pr_only_session trigger)
