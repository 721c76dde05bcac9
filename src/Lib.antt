-- ===== src/Lib.antt =====
-- WorkflowUI: the logic of the frontend (frontend/src), a visual editor that draws a workflow as a
-- graph of typed nodes, sends it to an inference backend over a WebSocket and shows the run.
--
-- The parts and how they meet. The user edits the graph, which the workflow store holds; a new edge
-- is asked of the connection validation, which reads the ports of the node registry, and the edges
-- on cycles are marked by the cycle detection. The WebSocket client carries JSON-RPC calls to the
-- backend and its notifications back. The workflow runner turns notifications into writes of the
-- three stores: statuses and results of nodes, log entries and the paused node, error toasts. The
-- model inspection asks the backend for the structure of a model file through the same client.
-- The user's side: the workflow actions run, stop and resume a workflow and change the graph, and
-- are called by the buttons of the console and by the keyboard; the menu of a node and the canvas
-- call the same stores. The palette offers the node types of the registry, the node components draw
-- their ports, and the properties panel edits their configurations, for some with a schema that the
-- backend gives and a cache keeps.
--
-- Which file models which part:
--   Ws        frontend/src/transport/WsClient.ts: Ws/Types the state of the class and of the platform
--             under it, Ws/Sockets connecting, closing and reconnecting, Ws/Calls the calls, messages,
--             timers, `disconnect` and subscriptions, Ws/Events any sequence of these.
--   Store     frontend/src/store/workflowStore.ts: Store/Types the state, Store/Actions the actions,
--             Store/Names `generateNodeId` and the pattern of the import, Store/Doubles the numbers
--             of its counter, Store/Import export and import, Store/History `partialize`, `equality`
--             and the subscriber of `nodesById`.
--   Runner    frontend/src/engine/WorkflowRunner.ts, over Store, Debug and Toast: Runner/Types the
--             events and the texts made of them, Runner/Handlers the handlers.
--   Inspect   frontend/src/hooks/useModelInspect.ts.
--   Resize    frontend/src/hooks/useResizable.ts.
--   Debug     frontend/src/store/debugStore.ts.
--   Toast     frontend/src/store/toastStore.ts, with the timers that it arms.
--   Manifest  frontend/src/nodes/manifest.tsx and the tables that portSchema.ts and configSchemas.ts
--             derive from it; the entries themselves are Manifest/Inputs, Images and Control.
--   Ports     frontend/src/nodes/portSchema.ts.
--   Cycles    frontend/src/utils/cycles.ts.
--   Actions   frontend/src/hooks/useWorkflowActions.ts: Actions/Types the session (the stores and the
--             client), Actions/Methods the actions.
--   Menu      frontend/src/components/NodeContextMenu.tsx.
--   Shortcuts frontend/src/hooks/useKeyboardShortcuts.ts.
--   Canvas    frontend/src/App.tsx: Canvas/Handlers its callbacks, Canvas/Styles `styledNodes` with
--             its cache, `styledEdges` and utils/nodeClassName.ts, Canvas/Layout utils/layout.ts.
--   Console   frontend/src/panels/ConsolePanel.tsx, and the key of components/ToastContainer.tsx.
--   Palette   frontend/src/panels/NodePalette.tsx, over the list of nodes/index.ts.
--   Vendor    frontend/src/panels/PropertiesPanel.tsx: the cache of the vendor schema and its hook.
--   Properties  the rest of that panel: Properties/Fields the fields of a schema, Properties/Panel
--             the choice of the editor, requests and debug inputs, Properties/Vendors the fields that
--             the backend describes, Properties/Fallback the form without them, Properties/Chart the
--             bars of the chart.
--   Drawer    frontend/src/components/ModelInspectorDrawer.tsx and types/modelInspector.ts:
--             Drawer/Labels its texts and colours, Drawer/Layers its edges, nodes and rows.
--   Cards     the node components of frontend/src/nodes/ and components/LabeledHandle.tsx: what each
--             shows of its data, and its handles; Cards/Saved the effect of SaveImageNode.
--   Preview   frontend/src/components/useImagePreview.ts and ImagePreview.tsx.
--   Shell     hooks/useTheme.ts, components/ThemeSwitcher.tsx, components/ReconnectBanner.tsx,
--             utils/filePicker.ts and utils/logger.ts, all of frontend/src.
--   Base      the shared names: numbers, tests on them, lists, texts.
--   Tests     the theorems at concrete inputs, and tests of the definitions.
-- A definition has the name of the function that it models, in snake case; the modules below a part
-- prove what is listed under their names.
--
-- Choices of the models:
--   - A method is a function from the state of its object to the new state. Timers of the platform
--     are a list of armed timers, each with a handle and what it will do; a timer goes off as an
--     event, in any order with the others. A settled promise is an entry of a list, so that a second
--     settling would show.
--   - Maps and sets are association lists, lists without repetition, or functions. Objects with
--     arbitrary keys keep the order of insertion; keys that JavaScript orders as array indices, and
--     inherited keys, are not told apart.
--   - Values of type `unknown` are a type parameter. So are the numbers of the canvas (coordinates,
--     durations), whose sum with 40 and `===` are arguments. `Math.random()` is n / 2^53. Steps of
--     number fields in the registry are written in hundredths. `nodeIdCounter` and the
--     numbers in ids are the doubles that are natural numbers (Store/Doubles), rounded above
--     2^53; neither Infinity, from 2^1024, nor the exponents with which JavaScript prints numbers
--     from 10^21 are modelled. Other counters are natural numbers. A handle that is `null` and one
--     that is `undefined` are the same `none`.
--   - What a library computes is an argument: `applyNodeChanges` and `applyEdgeChanges` of React Flow,
--     and what zundo writes on undo, which is the nodes and edges of a snapshot. `===` on nodes is
--     an argument, since undo restores objects that are not those of the index. `JSON.parse` is
--     modelled by its outcome, `JSON.stringify` of a configuration is an argument.
--   - A component is a function from the state that it reads to what it shows, and each handler a
--     function on the state that it writes. `trim` and `toLowerCase`, dagre, `addEdge`, how numbers
--     are printed and how parameters of a call are written are arguments.
--   - A promise of a call is the step in which its answer comes, in any order with the other events;
--     what waits for the same promise is a list.
--   - Subscribers of the WebSocket client return normally and do not call the client while they are
--     told something. Sockets may report late, also those that have been replaced.
--   - The walk of `findCyclicEdges` takes fuel, one round for each hop and each node (`fuel_for`),
--     which is proved to be enough for every graph. The loop over the bars of the chart takes one more
--     than there are values, which is proved to be enough, and the digits of a number its successor.
--     All other recursion is structural.
--
-- Not modelled: icons, styles and the markup around what is named above; React itself, so that
-- effects are run by the events of the models; the geometry of the chart, the ticker of the reconnect
-- banner; dagre and React Flow; the Tauri shell (Rust); the backend (C++) with its executor,
-- which is known here only by the messages that it sends; vendored code, demos, scripts and tests.
-- Of an error of the import the kind is kept, and its message is made where it is shown.
pub mod Base
pub mod Debug
pub mod Toast
pub mod Manifest
pub mod Ports
pub mod Cycles
pub mod Ws
pub mod Tests
pub mod Store
pub mod Runner
pub mod Inspect
pub mod Resize
pub mod Actions
pub mod Menu
pub mod Shortcuts
pub mod Canvas
pub mod Console
pub mod Palette
pub mod Vendor
pub mod Drawer
pub mod Properties
pub mod Cards
pub mod Preview
pub mod Shell
