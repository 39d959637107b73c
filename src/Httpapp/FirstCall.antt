-- ===== src/Httpapp/FirstCall.antt =====
-- internal/httpapp/server.go and internal/config/config.go: the limiters that New makes of a
-- configuration which Load accepts.
use gocord.Config.Env.{Env}
