-- ===== src/Handler/ToolNamesData.antt =====
-- internal/handler/tool_policy.go, `toolProfiles` and `toolGroups`, and the aliases of
-- tool_registry.go.
use koios.Prelude.{List, [], ◌∷◌, Dict, Text, text}

unfoldable pub tool_profiles : Dict Text (List Text)
tool_profiles =
    (
      text "coding",
      text "group:sessions"
          ∷ text "group:fs"
          ∷ text "group:runtime"
          ∷ text "group:memory"
          ∷ text "group:web"
          ∷ text "group:browser"
          ∷ text "group:automation"
          ∷ text "group:mcp_context"
          ∷ [],
    )
    ∷ (text "messaging", text "group:sessions" ∷ text "group:memory" ∷ text "group:messaging" ∷ [])
    ∷ (text "minimal", text "group:sessions" ∷ [])
    ∷ (
      text "sandbox",
      text "tool.list"
          ∷ text "tool.help"
          ∷ text "tool.search"
          ∷ text "time.now"
          ∷ text "subagent.status"
          ∷ text "session.history"
          ∷ text "session.status"
          ∷ text "session.list"
          ∷ text "read"
          ∷ text "head"
          ∷ text "tail"
          ∷ text "grep"
          ∷ text "find"
          ∷ text "sort"
          ∷ text "uniq"
          ∷ text "diff"
          ∷ text "workspace.list"
          ∷ text "workspace.read"
          ∷ text "workspace.head"
          ∷ text "workspace.tail"
          ∷ text "workspace.grep"
          ∷ text "workspace.find"
          ∷ text "workspace.sort"
          ∷ text "workspace.uniq"
          ∷ text "workspace.diff"
          ∷ text "web_search"
          ∷ text "web_fetch"
          ∷ text "memory.search"
          ∷ text "memory.get"
          ∷ text "bookmark.get"
          ∷ text "bookmark.list"
          ∷ text "bookmark.search"
          ∷ text "note.search"
          ∷ [],
    )
    ∷ []

unfoldable pub tool_groups : Dict Text (List Text)
tool_groups =
    (
      text "group:sessions",
      text "tool.list"
          ∷ text "tool.help"
          ∷ text "tool.search"
          ∷ text "time.now"
          ∷ text "subagent.status"
          ∷ text "session.history"
          ∷ text "session.status"
          ∷ text "session.reset"
          ∷ text "session.list"
          ∷ text "session.spawn"
          ∷ text "session.send"
          ∷ text "session.patch"
          ∷ [],
    )
    ∷ (
      text "group:memory",
      text "bookmark.create"
          ∷ text "bookmark.capture_session"
          ∷ text "bookmark.get"
          ∷ text "bookmark.list"
          ∷ text "bookmark.search"
          ∷ text "bookmark.update"
          ∷ text "bookmark.delete"
          ∷ text "memory.search"
          ∷ text "memory.insert"
          ∷ text "memory.get"
          ∷ text "brief.generate"
          ∷ text "waiting.create"
          ∷ text "waiting.list"
          ∷ text "waiting.get"
          ∷ text "waiting.update"
          ∷ text "waiting.snooze"
          ∷ text "waiting.resolve"
          ∷ text "waiting.reopen"
          ∷ text "calendar.source.create"
          ∷ text "calendar.source.list"
          ∷ text "calendar.source.delete"
          ∷ text "calendar.agenda"
          ∷ text "memory.preference.create"
          ∷ text "memory.preference.get"
          ∷ text "memory.preference.list"
          ∷ text "memory.preference.update"
          ∷ text "memory.preference.confirm"
          ∷ text "memory.preference.delete"
          ∷ text "memory.entity.create"
          ∷ text "memory.entity.update"
          ∷ text "memory.entity.get"
          ∷ text "memory.entity.list"
          ∷ text "memory.entity.search"
          ∷ text "memory.entity.link_chunk"
          ∷ text "memory.entity.relate"
          ∷ text "memory.entity.touch"
          ∷ text "memory.entity.delete"
          ∷ text "memory.entity.unlink_chunk"
          ∷ text "memory.entity.unrelate"
          ∷ text "contact.list"
          ∷ text "contact.resolve"
          ∷ text "contact.alias"
          ∷ text "contact.link_channel_identity"
          ∷ text "memory.candidate.create"
          ∷ text "memory.candidate.list"
          ∷ text "memory.candidate.edit"
          ∷ text "memory.candidate.approve"
          ∷ text "memory.candidate.merge"
          ∷ text "memory.candidate.reject"
          ∷ text "task.create"
          ∷ text "task.extract"
          ∷ text "task.list"
          ∷ text "task.get"
          ∷ text "task.update"
          ∷ text "task.assign"
          ∷ text "task.snooze"
          ∷ text "task.complete"
          ∷ text "task.reopen"
          ∷ text "note.create"
          ∷ text "note.search"
          ∷ text "note.update"
          ∷ text "scratchpad.create"
          ∷ text "scratchpad.update"
          ∷ text "scratchpad.get"
          ∷ text "scratchpad.clear"
          ∷ text "plan.create"
          ∷ text "plan.update"
          ∷ text "plan.status"
          ∷ text "plan.complete_step"
          ∷ text "artifact.create"
          ∷ text "artifact.get"
          ∷ text "artifact.list"
          ∷ text "artifact.update"
          ∷ text "decision.record"
          ∷ text "decision.list"
          ∷ text "decision.search"
          ∷ text "preference.set"
          ∷ text "preference.get"
          ∷ text "preference.list"
          ∷ [],
    )
    ∷ (
      text "group:fs",
      text "read"
          ∷ text "head"
          ∷ text "tail"
          ∷ text "grep"
          ∷ text "find"
          ∷ text "sort"
          ∷ text "uniq"
          ∷ text "diff"
          ∷ text "git.status"
          ∷ text "git.diff"
          ∷ text "git.log"
          ∷ text "git.branch"
          ∷ text "git.commit"
          ∷ text "git.apply_patch"
          ∷ text "write"
          ∷ text "edit"
          ∷ text "apply_patch"
          ∷ text "workspace.list"
          ∷ text "workspace.read"
          ∷ text "workspace.head"
          ∷ text "workspace.tail"
          ∷ text "workspace.grep"
          ∷ text "workspace.find"
          ∷ text "workspace.sort"
          ∷ text "workspace.uniq"
          ∷ text "workspace.diff"
          ∷ text "workspace.write"
          ∷ text "workspace.edit"
          ∷ text "workspace.mkdir"
          ∷ text "workspace.delete"
          ∷ [],
    )
    ∷ (
      text "group:runtime",
      text "approval.request"
          ∷ text "exec"
          ∷ text "run.list"
          ∷ text "run.status"
          ∷ text "run.cancel"
          ∷ text "run.logs"
          ∷ text "usage.current"
          ∷ text "usage.history"
          ∷ text "usage.estimate"
          ∷ text "model.list"
          ∷ text "provider.models"
          ∷ text "provider.models_preview"
          ∷ text "provider.usage"
          ∷ text "model.capabilities"
          ∷ text "model.route"
          ∷ text "code_execution"
          ∷ text "code_execution.status"
          ∷ text "code_execution.cancel"
          ∷ text "process.start"
          ∷ text "process.status"
          ∷ text "process.stop"
          ∷ text "process.list"
          ∷ text "process.logs"
          ∷ text "system.run"
          ∷ text "system.notify"
          ∷ text "notification.send"
          ∷ [],
    )
    ∷ (
      text "group:messaging",
      text "message"
          ∷ text "message.send"
          ∷ text "inbox.list"
          ∷ text "inbox.read"
          ∷ text "inbox.mark_read"
          ∷ text "inbox.route"
          ∷ text "inbox.summarize"
          ∷ [],
    )
    ∷ (text "group:web", text "web_search" ∷ text "web_fetch" ∷ [])
    ∷ (
      text "group:browser",
      text "browser.profile.list"
          ∷ text "browser.profile.use"
          ∷ text "browser.status"
          ∷ text "browser.*"
          ∷ [],
    )
    ∷ (
      text "group:automation",
      text "cron.list"
          ∷ text "cron.create"
          ∷ text "cron.get"
          ∷ text "cron.update"
          ∷ text "cron.delete"
          ∷ text "cron.trigger"
          ∷ text "cron.runs"
          ∷ [],
    )
    ∷ (
      text "group:mcp_context",
      text "mcp.server.list"
          ∷ text "mcp.search"
          ∷ text "mcp.tool.details"
          ∷ text "mcp.tool.call"
          ∷ text "mcp.resource.list"
          ∷ text "mcp.resource.read"
          ∷ text "mcp.prompt.list"
          ∷ text "mcp.prompt.get"
          ∷ [],
    )
    ∷ (
      text "group:mcp_admin",
      text "mcp.server.list"
          ∷ text "mcp.server.add"
          ∷ text "mcp.server.remove"
          ∷ text "mcp.server.enable"
          ∷ text "mcp.server.disable"
          ∷ text "mcp.server.inspect"
          ∷ text "mcp.server.test"
          ∷ [],
    )
    ∷ []

unfoldable pub tool_aliases : Dict Text Text
tool_aliases =
    (text "shell", text "exec")
    ∷ (text "list", text "cron.list")
    ∷ (text "spawn.status", text "subagent.status")
    ∷ (text "read", text "workspace.read")
    ∷ (text "head", text "workspace.head")
    ∷ (text "tail", text "workspace.tail")
    ∷ (text "grep", text "workspace.grep")
    ∷ (text "find", text "workspace.find")
    ∷ (text "sort", text "workspace.sort")
    ∷ (text "uniq", text "workspace.uniq")
    ∷ (text "diff", text "workspace.diff")
    ∷ (text "write", text "workspace.write")
    ∷ (text "edit", text "workspace.edit")
    ∷ (text "message", text "message.send")
    ∷ (text "exec", text "system.run")
    ∷ []

unfoldable pub hidden_aliases : List Text
hidden_aliases =
    text "read"
    ∷ text "head"
    ∷ text "tail"
    ∷ text "grep"
    ∷ text "find"
    ∷ text "sort"
    ∷ text "uniq"
    ∷ text "diff"
    ∷ text "write"
    ∷ text "edit"
    ∷ text "message"
    ∷ text "exec"
    ∷ []
