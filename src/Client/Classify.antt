-- ===== src/Client/Classify.antt =====
-- client/classify.go: the reservation class of a command type.
use vectrify_agent_runner.Base.{Bool, true, false, ◌||◌, Text, codes, text_eq, if◌then◌else◌}

pub data CommandClass : Type 0 where
  light heavy : CommandClass

unfoldable pub class_name : CommandClass → Text
class_name heavy = codes "heavy"
class_name light = codes "light"

abbrev pub is_heavy : CommandClass → Bool
is_heavy heavy = true
is_heavy light = false

-- The `switch` of `classifyCommand`.
unfoldable pub classify_command : Text → CommandClass
classify_command cmd_type =
    if text_eq cmd_type (codes "shell")
      || text_eq cmd_type (codes "file_transfer")
      || text_eq cmd_type (codes "browser")
      || text_eq cmd_type (codes "process")
    then heavy
    else light
