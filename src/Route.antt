-- ===== src/Route.antt =====
-- internal/route: routes through several waypoints, the answers of the route service, and the
-- choice among backends.
pub mod Model
pub mod Answers
pub mod Waypoints
pub mod Multi
pub mod Service
pub mod Backends
