-- ===== src/Lib.antt =====
-- A model of vda-5050-lib.js with proofs. The library speaks VDA 5050, the protocol between the
-- master control of a fleet and its automated guided vehicles (AGVs), over MQTT.
--
-- The program's parts, and the files that model them:
--   * src/common/vda-5050-types.ts: the objects of the protocol. Vda.antt and its children. Fields
--     that no code reads (positions, trajectories, loads) are JSON values, numbers in them literals.
--   * src/controller/agv-controller.ts: `AgvController`, the vehicle's side. It takes in orders and
--     instant actions, drives an adapter through the nodes and edges of the current order, starts
--     the actions there, and reports its state. Agv.antt and its children:
--       Agv/Controller     the private fields as one record, the contexts, the effects
--       Agv/Updates        the `update…` methods, `_updateState`, `_mergeState`, `_cloneState`
--       Agv/Faults         the errors that are created; Agv/ErrorType their types
--       Agv/Queries        `hasActiveOrder`, `_getNodeStates` and the like
--       Agv/Constraints    `_validateOrderConstraints`; Route says what a valid order is
--       Agv/Chunk          which actions start next; `_areParallelActionsEnded`
--       Agv/Traversal      `_processNode`, `_processEdge`, `_traverseEdge` and their helpers
--       Agv/Status         `_updateActionStatus`, `_processInstantAction`, `_cancelOrder`
--       Agv/InstantActions `_processInstantActions`, `_checkInstantActionExecutable`
--       Agv/Orders         `_processOrder`, `_acceptOrder`, `_rejectOrder`
--       Agv/Callbacks      what the adapter and the client call back, and the clean-up afterwards
--       Agv/Steps          all of this in any order: the states that a controller can get into
--       Agv/Examples       tests
--
-- Mqtt models src/common/. Mqtt/Utf8 is mqtt-utils.ts, on lists of UTF-16 code units; Mqtt/AgvIdMap
-- is agvid-map.ts; Mqtt/Topics is what _compileMqttTopic of subscription-manager.ts makes of a topic
-- format, and Mqtt/Subscriptions the rest of SubscriptionManager. The subscription ids that the
-- package uuid makes are arguments. Mqtt/Client is client.ts, with the directions of topics of
-- src/client/:
--     Mqtt/Client            topic validation, header ids
--     Mqtt/Client/Options    `_validateOptions`, the constructor
--     Mqtt/Client/Messages   `validateAgvId`, `validateTopicObject`, the state of a client
--     Mqtt/Client/Traffic    `publishTopic`, `subscribeTopic`, `unsubscribe`, `_dispatchMessage`
--     Mqtt/Client/Lifecycle  `start`, `stop`, the events of the connection, all in any order
-- The package mqtt takes packets, recorded newest first in `packets`; it queues a publication while
-- offline. A payload is parsed by a parameter into an object with a whole header. Handlers tell by
-- a parameter whether they throw, and change no subscription while a message is dispatched.
--
-- Master models src/controller/master-controller.ts: `MasterController`, the master control's side.
-- It keeps a cache for each assigned order and each instant action, and turns the states of the
-- vehicles into calls of event handlers.
--     Master/Controller  the private fields and the caches as records, the events
--     Master/Queries     `_getNode`, `_isOrderCanceling`, `_isOrderProcessed` and the like
--     Master/Caches      `assignOrder`, `_addOrderStateCache`, `_removeOrderStateCache` and the search
--     Master/Edges       `processEdgeEvents`, `_updateEdgeStateChanges`
--     Master/Stitching   the beginning of `_dispatchOrderState`: the cache of the active order is
--                        taken over; Joint joins it with the vehicle's side
--     Master/Orders      the rest of `_dispatchOrderState`
--     Master/Instants    `initiateInstantActions`, the states and errors of instant actions
--     Master/Dispatch    `_dispatchState`; Rejected joins it with the refusals of the vehicle's side
--     Master/Consistent  what holds between two calls; Steps the calls in any order
-- Caches are referred to by number in a store, as several of them refer to one another; nodes and
-- edges carry the numbers of their objects. Calls of handlers and publications are recorded in
-- `events`, newest first; a handler that calls the controller at once is not modelled. The search
-- for the active order goes back along ever older caches, so the number of the first one, plus one,
-- is enough fuel.
--   * Common.antt and its children: arrays as lists, `Map` as a list of entries in insertion order,
--     `===` as an instance, decimal numerals.
--
-- How state and time are modelled. A method is a function from the record of the fields to an
-- `Outcome`: it returns (`done`) or throws (`thrown`), and keeps its changes in both cases. A call
-- of the adapter and a publication are recorded in `effects`, newest first. The adapter is the
-- user's: its answers (`isActionExecutable` and the like) are functions in the record `Adapter`,
-- and its callbacks are calls of their own, made after the method that called it has returned.
-- What stands behind an `await` is a call of its own too (`state_published`,
-- `factsheet_published`). Errors are compared by reference in the source, so each carries the
-- number of its object, and a copy by way of JSON gets new numbers. A paused node is the same object
-- as the node of the order with its ids, so what is appended to that one is appended to it.
--
-- Fuel. `_updateActionStatus` calls itself through `_processInstantAction`, with one instant action
-- less in the list each time: `update_action_status` runs on one more than their number.
--
-- Not modelled: the JSON schema validators (generated code; their verdict is part of an inbound
-- message), the timers and the visualization messages, `attach` and `detach`, the debug output;
-- the other options of the connection, the last will and a start that fails; what the clients in
-- src/client/ add on top (connection messages, the tracking of vehicles); the virtual AGV adapter.

pub mod Common
pub mod Vda
pub mod Agv
pub mod Mqtt
pub mod Master
