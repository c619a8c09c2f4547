-- ===== src/Tests.antt =====
-- Concrete numbers and a concrete queue, and the theorems at inputs of the code's kind.
mod Fixed
mod ListQueue
mod Roads
mod Detours
mod Routes
mod Requests
mod Sockets
