-- ===== src/Rooms.antt =====
-- internal/rooms/manager.go: peers, rooms and the room manager. Peer, State, Lifecycle
-- and Membership hold the definitions, the other children the proofs about them.
pub mod Peer
pub mod State
pub mod Lifecycle
pub mod Membership
pub mod Access
pub mod Refusals
pub mod Connection
pub mod Seats
pub mod Invariant
pub mod History
pub mod Kept
pub mod Keeping
pub mod Returning
pub mod Expiry
pub mod Capacity
pub mod Delivery
mod Tests
