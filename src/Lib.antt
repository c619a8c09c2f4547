-- ===== src/Lib.antt =====
-- geo: a model of the geo service, a Go program that tracks drivers and passengers, answers
-- searches for drivers and shipments near a point, and plans routes over a road graph.
--
-- Routing models internal/routing. Highway is highway.go, the compact kinds of road. Graph is
-- graph.go: nodes, edges, the pool of names and the flags of access, with Go's maps as functions
-- into Option. AStar is astar.go: `a_star` is aStar with its scores, its way back (`came_from`),
-- its set of settled nodes and its queue, with the invariants of its rounds in Front, Improve and
-- Rounds; Heap is the interface that container/heap fills, and a section parameter of the search.
-- Bidir is bidir.go: `bi_a_star` is biAStar, on a record of two such searches and the best path
-- so far, which Meeting has, with what one edge does in Cases, both steps in Forward and
-- Backward, and the path put together in Path. Yen is yen.go: `k_fastest_paths` is KFastestPaths
-- over `bi_a_star`, with the candidates of a round in Candidates and the accepted paths in
-- Chosen; sort.Slice is an argument. Snap is the search of graph.go for the nearest node, through
-- the cells of the grid, with Haversine of internal/utils/geo.go. Profiles is the part of
-- engine.go with the transport modes and their speeds, Polyline the part with the codec of
-- Google's encoded polylines, and Engine the part from two points to routes:
-- `calculate_alternatives_ctx` is CalculateAlternativesCtx, with the points of a route in
-- Engine/Points and what is answered in Engine/Answers; the texts of the turns and the arc of a
-- flight are arguments.
--
-- Coords models two more parts of internal/utils: the test of coordinates in geo.go, and in polyline.go
-- the second codec of polylines, whose decoder panics at a text that is cut off.
--
-- Route models internal/route. Model is model.go; Waypoints and Multi are multi_service.go, the
-- order of the waypoints and Compute; Answers is the part of service.go that builds answers,
-- Service its CalculateWithMeta with the keys of internal/cache/keys.go; Backends is backend.go:
-- a backend is a record of functions on a state, so that Internal (the engine in the process,
-- with its lazy load), Osrm (over a client that is an argument), the limit on concurrent calls
-- and the fallback are put one around another as in the code. A semaphore is the number of its
-- slots in use, and how a wait for one ends is an argument.
--
-- Service models internal/service. Drivers is DriverService.SearchNearby of driver.go with its
-- filters; Shipments is SearchNearby of shipment.go, Vehicles the part of it with the vehicle
-- types; Limits holds the caps on radius and limit, Ids the loops that collect ids once each.
-- Redis and the database of the profiles are arguments: what a call gives, none for an error.
--
-- Realtime models the live side. ConnLimiter and MessageLimiter are the two limiters of
-- internal/wsnearby/limiter.go, the second with the clock as an argument; Hub is the hub of
-- internal/ws/hub.go, BatchWriter the loop of internal/storage/location_batch.go. What a mutex
-- guards is one step, and a run is a list of steps; a select is the input it receives. Session is
-- internal/wsnearby/session.go, a connection whose steps are the calls of it, the rounds of its
-- two pumps one after another, and the overlap of two writes of the pumps, which nothing guards; Messages is internal/wsnearby/messages.go, with JSON as an argument; Slots is
-- internal/wsplatform/redis_limits.go, with each sorted set as a list; LocationGuard is
-- location_guard.go beside it, whose GET and SET of a key are two steps, joined in `validate` for an
-- update that no other one of the subject overlaps. broadcastLocal of the hub sends after it has
-- released the lock; it is one step, as no client comes or goes meanwhile.
--
-- Base holds what the parts share: Boolean tests, lists and integers over the native numbers, and
-- the interface Float. float64 is such an interface, of the operations the code calls; theorems
-- on order take IsOrdered, which holds of IEEE numbers other than NaN and assumes no law of
-- associativity. Tests instantiates the interfaces by functions and applies the theorems.
--
-- Fuel: the search of AStar runs on two more rounds than there are edges, since each round takes
-- an item from the queue and each edge out of a node puts one there at most once; that of Bidir
-- on three more rounds than the edges out of and into the nodes, for both its queues; the decoder
-- of polylines runs on the length of its text, since each point takes a byte at least. The 5-bit
-- groups of a polyline are read up to shift 30, as in decodeChunk.
--
-- Not modelled: the ingestion of positions in internal/gps and the registry and the breaker of
-- internal/wsplatform, which are left for later; SQL texts and Redis calls, HTTP and WebSocket
-- I/O, tokens, metrics, the importers and simulators under cmd, and the floating geometry of
-- turns and transit lines.
pub mod Base
pub mod Coords
pub mod Routing
pub mod Route
pub mod Service
pub mod Realtime
pub mod Tests
