-- ===== src/Web.antt =====
-- web/ui.go: the program that runs in the browser, which the server sends as a text. State holds
-- what a client keeps, Negotiation, Recovery, Call and Signals the functions of AppJS that change
-- it, and Events their runs; Quiet to Leaving are proofs about them. Opus, Encoding and Card hold the
-- functions on texts, over Utf8 of the browser; OpusMatch, OpusLaws and CardLink are proofs.
-- Address reads the page's address; Reload and Invited are proofs about invitations.
pub mod State
pub mod Backoff
pub mod Opus
pub mod OpusLaws
pub mod OpusMatch
pub mod Negotiation
pub mod Recovery
pub mod Call
pub mod Signals
pub mod Events
pub mod Quiet
pub mod Order
pub mod Starting
pub mod Orderly
pub mod HungUp
pub mod Callee
pub mod Offerer
pub mod Rejoin
pub mod Leaving
pub mod Encoding
pub mod Utf8
pub mod Card
pub mod CardLink
pub mod Address
pub mod Api
pub mod Reload
pub mod Invited
mod Tests
mod ServerTests
mod TextTests
mod AddressTests
