-- ===== src/Lib.antt =====
-- A model of the browser client of zwei, a messenger: the parts of frontend-app that decide what a
-- message, an event and an ICE candidate are, and the state machines of the session, the realtime
-- connection, the calls and the access to groups.
--
-- The parts, and how they meet. The server's events and the client's requests are JSON values on one
-- websocket. `DataProviderService` owns the socket: it asks for a ticket, opens the socket, waits
-- until who is present is known and the open conversation is recovered, publishes that it is ready,
-- and connects again after a failure. `CallFacade` sends and hears call events through it. Each
-- incoming event passes a validator first; a group call's candidate signal that fails only in its
-- candidate is reported on its own. Candidates are judged by the ICE generations that an SDP text
-- describes. Messages carry mentions, spans of the body, which are checked on the way in and out,
-- shown as segments, and moved while a draft is edited. The server's answers over HTTP are mapped to
-- conversations and messages. `AuthService` holds the token that all requests carry: it renews it
-- against the binding in the storage of the browser, which all tabs share, and signs out. In a call
-- the two ends negotiate over the signals; in a group call the candidates of each peer wait until
-- their generation is installed. `HomeGroupAccessFacade` decides which groups are shown: it weighs the
-- revisions of memberships that come from events, lists, lookups and departures, in any order. Push
-- enrollment, alerts and touch gestures stand beside all this.
--
-- The files:
--   * Common, Common/Tests, Common/Lists: the library's names and the helpers on numbers and lists.
--   * Js/Text, Js/Value: what the source uses of JavaScript: texts as lists of UTF-16 code units with
--     `trim` and the tests of the regular expressions, and values of type `unknown`.
--   * Message (frontend-app/src/app/home/message.model.ts): `isValidMessageMentions`,
--     `messageTextSegments` and `updateMentionRanges`; its laws are in Validity, Segments, Loops,
--     Edits and Typing.
--   * Ice (frontend-app/src/app/home/group-ice-generation.ts): Lines has the regular expressions,
--     Candidate has `iceCandidateIdentity`, Generations has `iceGenerations` and
--     `matchesIceGeneration`, and Outgoing has `outgoingIceCandidate`.
--   * Protocol (the validators of frontend-app/src/app/home/data-provider.service.ts, and
--     `isValidMessageMentionWire` of frontend-app/src/app/home/wire.mapper.ts): Fields, Calls, Rooms,
--     Client and Events; Diagnostics has `invalidGroupCandidate`.
--   * Call (`CallFacade` of frontend-app/src/app/home/call-facade.service.ts): how a call begins
--     and is finished, over the state in State; Requests has the requests that wait for an answer,
--     Control what the user does, Events the server's events, and Media the signaling queue and the
--     peer connection, and Screen what starts and stops a screen share and changes the microphone;
--     Steps makes one relation of all of it, with its laws below. Call/Negotiation has
--     `processSignal`, `flushPendingCandidates` and `createAndSendOffer` run to their end over a
--     connection of the interface PeerConnection; Settling and Glare bring two ends together.
--   * GroupCall/Peer (frontend-app/src/app/home/group-call-facade.service.ts): the ICE candidates of
--     one peer of a group call, over the state in Generations; Steps makes one relation of it, with
--     its laws below.
--   * GroupAccess (`HomeGroupAccessFacade` of
--     frontend-app/src/app/home/home-group-access-facade.service.ts): the access to one group, over the
--     state in State, with what its lookups bring in Lookup and its departure in Departure; Listing has
--     `projectConversationList` and the facade over all groups. Steps makes one relation of what may
--     happen to a group.
--   * Session (`AuthService` of frontend-app/src/app/auth/auth.service.ts): Stored reads the items of
--     the storage; Restore, Logout and Retry (laws of Logout) stand under it; Steps makes one
--     relation of all of it, and Owned is about the token and the binding along it.
--   * Transport (`DataProviderService` of frontend-app/src/app/home/data-provider.service.ts): the
--     state and the methods; Send has `send`, `recover` and `sendRecovery`; Steps makes one relation
--     of all that can happen, and its children say what holds along it.
--   * Wire (frontend-app/src/app/home/wire.mapper.ts and conversation.model.ts beside it): conversations;
--     Groups has groups and their pages, Messages has messages and the event that sends one.
--   * Push (frontend-app/src/app/pwa/push-enrollment.service.ts): the enrollment for push messages,
--     with Enroll for its methods that write, and Steps for all of it in any order; Steps/Confirmed is
--     about what enrolled the browser.
--   * Gesture (frontend-app/src/app/shared): Swipe has swipe-back.directive.ts and Pull has
--     pull-to-refresh.directive.ts, over whole pixels.
--   * Alerts (frontend-app/src/app/notifications/notification.service.ts): the sounds and the browser
--     notifications, and Quiet for all of it in any order.
--   * Activity (frontend-app/src/app/home/conversation-activity.ts): the order of the conversations,
--     with its laws in Order.
-- The files named Examples hold runs on concrete inputs.
--
-- State and operations. The record Transport has a field for each field of the class, and `log` for
-- what the class does to the world. A callback is a function of the generation and the socket that it
-- closes over, so a callback that comes late is an argument like any other. `send` and `recover`
-- take whether the socket throws, and the random number of a reconnection, in units of 2 ^ -53.
--
-- The record Facade does the same for `CallFacade`, for the fields that the modelled methods use.
-- Streams and connections are numbers. What stands behind an `await` is an action of its own, which
-- is given the generation that the code has kept; so are the callbacks of the connection and what
-- `enqueueSignaling` runs. What runs off that queue is one step, and the offers and answers that the
-- connection makes are effects. Call/Negotiation looks into such a step: there the connection is a
-- parameter, whose signaling states are as its documentation has them and which may reject a
-- candidate that does not fit, a signal is processed as a
-- whole, and nothing else happens meanwhile. In GroupCall/Peer the timers may fire between the
-- stretches of a flush.
--
-- In GroupAccess a lookup and a departure are known by a number in place of their subscription, and
-- those lookups that have not ended are in the state, so that one that is unsubscribed calls nothing back. A
-- request for a group has one answer. A subscriber to `outcomes$` does not call back while it is told.
--
-- In Session the items of the storage are what `JSON.parse` reads of them, a token carries the
-- claims that are decoded from it, and `restoreSession` is called without a revocation token, as all
-- its callers call it. The lock between tabs is exclusive, and the other tabs keep to it: Steps
-- states as conditions on an action that they write the binding only while they hold the lock. A tab
-- may renew before it hears of what they wrote; one run of that is left out, in which it has no token
-- and joins a renewal of another subject that was in flight before its own generation began.
--
-- Bounds and fuel. The two loops of `updateMentionRanges` run on fuel, the length of the old body: each
-- round moves one character further, and Message/Loops shows that both stop because their condition
-- fails and not for want of fuel. All else is recursion on lists.
--
-- Not modelled. `Date.parse` is a parameter, as a test on texts. Numbers of JSON that are neither
-- integers nor needed are one value. Subscribers do not call back into the service while it emits.
-- The jitter is computed with exact numbers. Left out are the lists of devices and playback in a
-- direct call; the room, the media and the requests of a group call; the lock between tabs of the
-- enrollment; the HTTP calls and interceptors around the session; the screens of the client; and
-- the services in Go.
pub mod Common
pub mod Js
pub mod Activity
pub mod Alerts
pub mod Call
pub mod Gesture
pub mod GroupAccess
pub mod GroupCall
pub mod Ice
pub mod Message
pub mod Protocol
pub mod Push
pub mod Session
pub mod Transport
pub mod Wire
