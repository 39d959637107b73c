-- ===== src/Lib.antt =====
-- gocord: a server for two-party calls in the browser. A verification library for its Go code, and
-- for the client's JavaScript, which stands in a Go string.
--
-- The program. cmd/server starts a room manager (internal/rooms), the WebSocket handler of the
-- signaling protocol (internal/signaling), and the HTTP application (internal/httpapp), which is
-- configured by internal/config and sends push messages by internal/push. A call is a room: its
-- creator gets a secret, the first two clients that join with it are the caller and the callee, and
-- the handler relays their offers, answers and ICE candidates through each peer's send buffer. A
-- client that reconnects shows the session token of its role, and its new socket replaces the old
-- one. Rooms end by expiry, by staying empty, or by a hangup. The client (web/ui.go, AppJS) opens
-- the socket, joins, negotiates a connection with its peer, and restores it when it fails.
--
-- The files.
--   Base: shared names; lists, association lists for Go maps, Go integers.
--   Text: package strings over texts, which are lists of code points. Text/Split, Trim: its laws.
--   Base64: encoding/base64, with its round trip.
--   Rooms/Peer: Peer, NewPeer, Enqueue and Kill of internal/rooms/manager.go. A *Peer is a handle,
--     a number, into a Heap of peers, so that a socket and a room share one peer and pointer
--     comparison is equality of handles.
--   Rooms/State, Rooms/Lifecycle, Rooms/Membership: Room, Manager and every method of Manager. A
--     method takes the manager and answers the new one; the clock's answer `now` and crypto/rand's
--     answers (Reader, none for an error) are arguments. Create and randomToken, Cleanup and
--     evictLocked, Status, Count and Delete stand in Lifecycle (create, cleanup, evict, status,
--     count, delete_room); Join, Leave, IsCurrent and Broadcast in Membership.
--   Rooms/History: any sequence of calls of the methods, `step` and `run`. Rooms/Access, Refusals,
--     Connection, Kept, Keeping, Returning, Seats, Invariant, Expiry, Capacity, Delivery: proofs about
--     them.
--   Signaling/Ip: net.ParseIP. Signaling/Candidate: internal/signaling/protocol.go, sanitizeSDP and
--     isValidCandidate. Signaling/Codec: sanitizeMessage. Signaling/Filter: proofs about sanitizeSDP.
--   Signaling/Handler: ServeHTTP of internal/signaling/handler.go, cut where it waits: serve_first
--     up to the read loop, serve_message for one round of it, serve_close for the deferred calls,
--     run_pending for the goroutine of a hangup.
--   Signaling/Upkeep, Served: the room manager's upkeep and the handler's functions on a well-formed
--     state.
--   Signaling/System: any interleaving of those steps, as a step relation on the server's state;
--     the goroutines of hangups end in any order.
--     Signaling/Handles, Quiet, Relay: proofs about the handler.
--   Signaling/Origin: sameOrigin and requestScheme of internal/signaling/handler.go.
--   Httpapp/RateLimit: internal/httpapp/ratelimit.go, with clientKey in Httpapp/Client. Httpapp/Level,
--     Allow, Budget: proofs about it.
--   Httpapp/Server: createRoom, roomStatus, clientConfig, pushNotify, indexPage and
--     securityHeaders of internal/httpapp/server.go. Httpapp/Creation, Creations: proofs about createRoom.
--   Httpapp/Mux: net/http's ServeMux. Httpapp/Routes: New, Handler and the files of
--     internal/httpapp/server.go; a request for the signaling protocol is served there up to its read
--     loop, and from there by the steps of Signaling/System. Httpapp/Found, Routed, Page,
--     FirstCall: proofs about them.
--   Push/Crypto: what internal/push/encrypt.go takes of crypto/hmac, crypto/ecdh and crypto/cipher, a
--     parameter, and the laws that the round trip supposes of it. Push/Hkdf: hkdfExtract and
--     hkdfExpand. Push/Encrypt: EncryptPayload and DecryptPayload. Push/RoundTrip: the proof.
--   Push/Vapid, Push/Jwt: internal/push/vapid.go, over a curve and a signature that are parameters.
--     Push/Flexible, Keys, Token: proofs about them.
--   Push/Sender, Push/Send: internal/push/sender.go; `send` is Sender.Send and `prepare` is it up to
--     the request. Push/Guard: proofs about them.
--   Config/Env, Load, Start, Ice: internal/config/config.go; Load is cut into the reading of the
--     settings and their checks (Config/Load), and the VAPID keys and the whole (Config/Start).
--     Config/Sound, Restart: proofs about it.
--   Web/State: `state` of AppJS in web/ui.go, and sendMessage. Web/Backoff: the wait before a new
--     socket. Web/Negotiation: makeOffer, drainCandidates, and the branches of
--     handleSignalingMessage for offers, answers and candidates. Web/Recovery: attemptIceRestart,
--     onMediaStateChange, startPeerReturnTimer, onPeerPresent, scheduleSignalingReconnect and
--     connectWebSocket. Web/Call: createPeerConnection, the socket's open and close, startSession,
--     hangup and closeLocalResources. Web/Signals: handleSignalingMessage. Web/Events: any sequence
--     of what can happen to a client, `step` and `run`.
--   Web/Quiet, Order, Starting, Orderly, HungUp, Callee, Offerer, Rejoin, Leaving: proofs about it,
--     the last two with Join and the handler of the server.
--   Web/Opus: enhanceOpusSDP and mergeFmtpParams. Web/Encoding: urlBase64ToUint8Array and
--     encodeBase64URL. Web/Card: decodeBase64URL, updateCallCardLink and parseCallCard, over Web/Utf8.
--     Web/OpusMatch, OpusLaws, CardLink: proofs about them.
--   Web/Address: parseRoomFromLocation, handleCardHashImport and handleRoute. Web/Api:
--     api, and what is shown of its errors. Web/Reload, Invited:
--     proofs about the link of an invitation, for the client and for the server.
--   Tests in each folder: runs at concrete inputs, and the theorems at inputs that meet their
--     hypotheses.
--
-- Choices. The path of a request has no percent escape. SHA-256 is a parameter, and so is
-- encoding/json (the record Codec of Signaling/Codec); nothing is supposed of either. hkdfExpand
-- gets a round for each byte that is asked for, and each round adds 32. Each method of Manager is
-- one step: it holds the lock throughout, but for Broadcast, which chooses the peers under the lock
-- and enqueues after it has released it, and is one step here too. Times and durations are nanoseconds in ℕ, since
-- Load refuses a negative lifetime or grace; the room bound is an integer. The rate limiter's
-- float64 values are exact rationals, and the time after which sweepLocked drops a bucket does not
-- overflow a Duration, as it can for a rate that is tiny beside the burst. A map is a list of entries, and the theorems hold for every
-- order of it. A function of the client that waits is cut there, and what it waits for may answer
-- in any order, or never; what RTCPeerConnection and WebSocket report is any value at any time, and
-- their constructors do not throw. Case is that of ASCII. JSON is a parameter of the call cards.
-- Every loop is structural recursion, but for the loop of net.ParseIP over the groups of an IPv6
-- address, which has eight rounds, as an address has eight groups, and the padding of
-- decodeBase64URL, which has three, as no more is missing from a multiple of four.
--
-- Not modelled: the WebSocket and HTTP libraries, deadlines and pings, logging, cmd/server, and of
-- web/ the markup and styles, the page's views, sounds, devices and statistics, the stored contacts
-- and the service worker.
pub mod Base
pub mod Base64
pub mod Text
pub mod Push
pub mod Rooms
pub mod Signaling
pub mod Httpapp
pub mod Config
pub mod Web
