-- ===== src/Tests/Codecs.antt =====
-- A text that is an event type.
use aleth_os_tool_passport.Prelude.{◌≡◌, ◌↔◌, some, Text, codes}
use aleth_os_tool_passport.Domain.Run
use aleth_os_tool_passport.Domain.Run.{RunStatus}
use aleth_os_tool_passport.Domain.RunEvent
use aleth_os_tool_passport.Domain.RunEvent.{RunEventType}
use aleth_os_tool_passport.Domain.Tool
use aleth_os_tool_passport.Domain.Tool.{ToolType}
use aleth_os_tool_passport.Domain.Evidence
use aleth_os_tool_passport.Domain.Evidence.{EvidenceSourceType}
use aleth_os_tool_passport.Domain.CheckResults
use aleth_os_tool_passport.Domain.CheckResults.{Rating}
use aleth_os_tool_passport.Domain.Codecs.{parse-as_str_iff}

abbrev sample : Text
sample = codes "node_started"

parse-as_str_iff_example :
    ((a : RunStatus) → (Run.parse sample ≡ some a) ↔ (sample ≡ Run.as_str a))
    × ((a : RunEventType) → (RunEvent.parse sample ≡ some a) ↔ (sample ≡ RunEvent.as_str a))
    × ((a : ToolType) → (Tool.parse sample ≡ some a) ↔ (sample ≡ Tool.as_str a))
    × ((a : EvidenceSourceType) → (Evidence.parse sample ≡ some a) ↔ (sample ≡ Evidence.as_str a))
    × ((a : Rating) → (CheckResults.parse sample ≡ some a) ↔ (sample ≡ CheckResults.rating_str a))
parse-as_str_iff_example = parse-as_str_iff sample
