-- ===== src/Middleware.antt =====
-- app/middleware: what a request passes on its way to the routes.
pub mod Http
pub mod AccessGuard
pub mod OriginGuard
pub mod RateLimiter
pub mod SecurityHeaders
pub mod RequestLogger
pub mod Stack
