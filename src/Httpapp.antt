-- ===== src/Httpapp.antt =====
-- internal/httpapp: the rate limiter (RateLimit; Level, Allow and Budget hold the proofs about it),
-- the keys that it counts clients by (Client), the handlers (Server; Creation and Creations hold
-- the proofs about createRoom), and New and the routing (Routes, over net/http's Mux; Found,
-- Routed, Page and FirstCall hold the proofs).
pub mod Client
pub mod Creation
pub mod Creations
pub mod Server
pub mod RateLimit
pub mod Level
pub mod Allow
pub mod Budget
pub mod Mux
pub mod Routes
pub mod Found
pub mod Routed
pub mod Page
pub mod FirstCall
mod Tests
pub mod ServerTests
pub mod RouteTests
