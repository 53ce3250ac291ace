-- ===== src/Store/Tamper.antt =====
-- The hash of the newest event commits to the whole log of its run.
use aleth_os_tool_passport.Prelude.{Text}
use aleth_os_tool_passport.Platform.{Platform}
use aleth_os_tool_passport.Domain.RunEvent.{RunEvent}
use aleth_os_tool_passport.Store.Events.{canonical_input}

module _ (p : Platform) where
  -- the text that is hashed for an event
  abbrev pub canonical_text : RunEvent → Text
  canonical_text e = p.canonicalize (canonical_input p e)
