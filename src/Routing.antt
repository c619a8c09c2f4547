-- ===== src/Routing.antt =====
-- internal/routing: the road graph, its searches, and the formats that they meet.
pub mod Highway
pub mod Polyline
pub mod Graph
pub mod Heap
pub mod AStar
pub mod Meeting
pub mod Bidir
pub mod Yen
pub mod Profiles
pub mod Snap
pub mod Engine
