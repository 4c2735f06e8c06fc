-- ===== src/Audit/Service/Publishing.antt =====
-- VerifyAndPublish of internal/audit/service.go.
use oneops.Audit.Service.{Service}
