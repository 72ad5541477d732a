-- ===== src/Lib.antt =====
-- A model of the core of Sippy B2BUA, a SIP back-to-back user agent in Python.
--
-- The program joins two calls. Each of them, a call leg, is a UA (sippy/UA.py) whose `state` is one
-- of thirteen objects (sippy/UacState*.py for the calling side, UasState*.py for the called side,
-- UaState*.py for both). A UA is told of requests and responses by the transaction manager
-- (sippy/SipTransactionManager.py), of events by the application (sippy/CCEvents.py; the application
-- passes the events of one UA on to the other), and of time by its timers. It answers with calls of
-- the transaction manager and with events of its own, which wait in `equeue`.
--
-- Sip models the messages as far as the call logic reads them:
--   Sip/Message (SipURL.py, SipRequest.py, SipResponse.py, SipMsg.countHFs, the errors under
--   Exceptions), Sip/Auth (SipWWWAuthenticate.supportedAlgorithm, IsDigestAlgSupported), Sip/Routing
--   (the route set of UacStateTrying.updateRoutes and of the ACK in
--   SipTransactionManager.incomingResponse).
--   Sip/Text, Sip/Uri (SipURL.py as text: parseSipURL, setParams, localStr, getParams; the call logic
--   reads URLs as Sip.Message.Url instead), with Sip/Tests.
-- Ua models one call leg. The UA with its state object is the record Ua.State.Ua, and a handler is a
-- function from that record to what the handler returns (Ua.Types.Next) and the new record. What a
-- handler asks of others is appended to `calls`, the newest first; what `event_cb` was called with
-- stands in `queue.delivered`.
--   Ua/Types, Ua/State    events, states, calls; the attributes of class UA
--   Ua/Timers, Ua/Queue   the timers, the event queue
--   Ua/Requests           genRequest, processChallenge, updateRoutes
--   Ua/Change             changeState with onStateChange and __init__ of every state
--   Ua/Remote, Ua/Local   the session description hooks
--   Ua/Uac, Ua/Uas, Ua/Connected   the handlers of each state
--   Ua/Dispatch           recvEvent, recvRequest, recvResponse and recvACK of the states
--   Ua/Agent, Ua/Incoming, Ua/Account   the methods of UA around them
--   Ua/Machine            the inputs as one step function, and runs
-- Tm models the transaction manager: Tm/Cache (l1rcache, l2rcache, transmitData, rCachePurge and the
-- first part of handleIncoming), Tm/Consumers (regConsumer, unregConsumer), Tm/Client
-- (newTransaction, cancelTransaction, incomingResponse, sendACK and their timers) and Tm/Server
-- (incomingRequest, sendResponse, doCancel and their timers; the consumers and `req_cb` are the
-- parameter Tm.Server.Receive.Owners), with Tm/Tests and Tm/Server/Tests.
-- Ua/Laws holds what is proved of the UA: Frame (what no handler touches), Induction (a rule for
-- runs that rests on it), Delivery, Ending, Challenges, Timing and Graph. Ua/Tests applies the theorems to a
-- concrete UA.
--
-- B2b models the call controller of sippy/b2bua.py, on routes of sippy/B2B/Route.py:
--   B2b/Types, B2b/Route   its data; customize and getNHAddr of a route
--   B2b/Legs        oConn, aConn, aDisc, aDead, oDead; the UAs themselves are the parameter World, which
--                   says what a UA calls back while it is told of an event
--   B2b/Originate   placeOriginate
--   B2b/Control     recvEvent, rDone, disconnect, group_expires
--   B2b/Machine     the inputs of a controller as one step function; a leg may change its state at any
--                   time, as it does on a CANCEL, a BYE or a timer of its own
--   B2b/Map         CallMap: recvRequest, the signals, executeStop, GClector
-- and B2b/Laws what is proved of it, B2b/Tests applies it. What the controller asks of others is
-- appended to `commands`. An exception is an `err` there; a run goes on after it, as the event loop
-- does, from the state before the step.
--
-- Message bodies are a parameter: a type B with the operations of Ua.Local.BodyOps. The hooks for
-- session descriptions are values of the model that say how the hook ends; they, the random Call-ID
-- and CSeq, and the clock (Ua.Local.Env) are free in every theorem. An exception that the code does
-- not catch is a value of Next, and the state is left as it was then. Times are milliseconds on the
-- native natural numbers, which Python's integers and clock values do not overflow either. Every
-- function is structural, so that no fuel is needed but for the digits of a number, where the number
-- and one are enough (Sip.Text.Laws.read_int-decimal); a REFER handles one nested event.
--
-- Not modelled: the parsing half of handleIncoming, the text of routes, filter_SDP of the controller,
-- session descriptions, header fields as text, and the RTP proxy client; sockets, threads, logs,
-- RADIUS and the web interface are I/O. A callback is taken not to call back into the same UA.
pub mod Prelude
pub mod Sip
pub mod Tm
pub mod B2b
pub mod Ua
