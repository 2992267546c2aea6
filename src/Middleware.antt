-- ===== src/Middleware.antt =====
-- pkg/middleware: the limits that the streaming API puts on its clients.
pub mod MaxClients
pub mod RateLimit
