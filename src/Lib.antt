-- ===== src/Lib.antt =====
-- The scripts of the web front ends of the OCPP server.
--
-- The pages talk to the server by JSON-RPC over a WebSocket. Js models what the scripts use of the
-- language: values, exceptions and state (Js/Effect), and the functions of the host, which stand as a
-- record `Host` that every model takes (JSON.parse, JSON.stringify, parseInt, toFixed and the like, and
-- the arithmetic of doubles).
-- A number is a non-negative integer or the 64 bits of any other double. Js/Json says what the text that
-- JSON.stringify makes keeps of a value, and which values have a text. Base holds lists, tests and
-- the `Map` of JavaScript (Base/Dict).
--
-- Rpc models `RPCClient`, which two files declare: web/js/rpc-client.js and
-- web/client/js/rpc-client.js. They agree on the fields (Rpc/State), `on`, `off` and `emit`
-- (Rpc/Emitter), and messages, opening and `disconnect` (Rpc/Core); what they do differently stands
-- in Rpc/Web (web/js) and Rpc/Monitor (web/client/js). A client is a record with the page that uses
-- it as a field, since the handlers of events change both. `emit` walks the handlers by their index, as
-- `forEach` does, and finds at each index what is registered by then. The requests that a client has
-- sent are kept as their texts hold them: `next_request` leaves out what JSON.stringify leaves out.
-- Promises are settled by putting their reaction in a queue, the language's own and no code of the
-- repository; `drain` runs it when the handler of an event has ended. What sockets do is an
-- argument: whether `new WebSocket` and `send` succeed, and when they open, close and receive.
-- Draining says how many rounds `drain` needs: each kind of wait has a weight, and a reaction settles
-- less than it weighs. Agreement compares the calls of the two clients, and Upheld carries invariants
-- over the operations of web/client/js/rpc-client.js. Params does so where the handlers keep an invariant
-- only for some parameters of a notification, which the text that arrives must have. Frames and Notices follow a text of the socket to the
-- reaction of the request that it answers, or to the handlers of the event that it names.
--
-- Central models `CentralSystem` of web/js/central_system.js: its fields and what the page shows
-- (State), the methods that show data (View), the choices and the notifications (Selection), the
-- buttons (Commands), and one event with the reactions that it brings (Events). An async method is two
-- definitions, before and after its `await`. `step` gives `drain` as many rounds as promises wait,
-- which is enough because no reaction of this page settles a promise. Blind, Settling and Closed carry
-- invariants over all events, and Once follows the number of an answered request through them.
--
-- Ocpp models `OCPPSystem` of web/js/index.js: its fields (State), what the page shows and the two
-- choices (View), what notifications change (Updates), the buttons (Commands), the start and the
-- answers of the server (Loading), and one event with the reactions that it brings (Events). The script
-- calls a client by the name that web/client/js/rpc-client.js sets, so the model uses Rpc/Monitor;
-- whether there is one is an argument. `step_ocpp` gives `drain` two rounds for each promise that was
-- settled: the answer with the count brings one more call, which may settle its own promise at once.
-- The tables of stations are lists of entries in the order of insertion: names that are inherited from
-- Object.prototype or are array indices are left out. Upkeep carries invariants over all events, and
-- History is what can happen to the page since it was loaded. Shown, Connectors, Table, Demo, Sequence,
-- Reactions and History hold the theorems.
--
-- Monitoring models `MonitoringSystem` of web/client/js/monitoring.js: its fields, the elements and the
-- log (State), the table of values and how an element shows a value (Values), what is made of the
-- answers (Metrics), `sendCommand` (Commands), and the start, the notifications, the timers, the
-- buttons and one event with its reactions (Events). No page loads this script; client/index.html has
-- the elements that it looks up, and a later version of it within the page. The names of values are
-- taken not to be the ids of elements that show something else. Whether the socket is open is an
-- argument, and of a timer only how often it runs is kept. Kept carries an invariant over the events, and
-- History is what can happen to the page since it was loaded. Journal, Uptime, Mirror, Answers,
-- Failures, Reactions and History hold the theorems.
--
-- Admin models `AdminPanel` of web/client/admin/js/admin.js: its page (State), and its methods and events
-- (Events). What `prompt` and `confirm` return is part of the event. History is what can happen to the
-- page since it was loaded; Reading, History and Edits hold the theorems.
--
-- Manager models `StationManager` of web/js/central_system_bak.js, an earlier page of the same kind: its
-- fields and elements (State), the log and the methods that show data (View), the list, the choices and
-- the notifications (Selection), the buttons (Commands), and the start and one event with its reactions
-- (Events). The script takes the client that web/client/js/rpc-client.js sets, so the model uses
-- Rpc/Monitor; another script connects it, which is an event. The page that belongs to the script is not
-- in the repository: the selectors are taken to find the elements that the comments beside them name,
-- and what the browser says of a class name is a function of the host. `step_manager` gives `drain` three
-- rounds for each promise that was settled: the answered list brings the request of a station, and
-- that of a station the request of a connector, each of which may settle its own promise at once.
-- Protocol states which requests the page may send, Upkeep carries invariants over all events, and
-- History is what can happen to the page since it was loaded. Listing, Choosing, Chosen and Frames say
-- what the three answers leave; Reactions, Sequence, Boot, Notices and History hold the theorems.
--
-- Tooltips models web/js/tooltips.js: the tooltips of a page by the number of their icon.
--
-- Not modelled: the writing to the console but for the log of the admin page, the styles but for colours
-- of statuses and the bar of the power, the time of day in the logs and in #serverTime, the lookup of
-- elements (the pages hold those that the scripts look up), the failure of a conversion to text outside
-- `answer` (of an object in a message that has a `toString` of its own), the C++ server, the vendored
-- libraries under 3rdparty, and the inline scripts of the pages.
pub mod Base
pub mod Js
pub mod Rpc
pub mod Central
pub mod Ocpp
pub mod Monitoring
pub mod Admin
pub mod Manager
pub mod Tooltips
mod Tests
