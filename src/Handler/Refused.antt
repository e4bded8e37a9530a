-- ===== src/Handler/Refused.antt =====
-- internal/handler/chat_tools_execute.go: calls of denied tools.
use koios.Prelude.{text_eq}
use koios.Handler.ToolPolicy.{ToolPolicy}
