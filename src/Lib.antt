-- ===== src/Lib.antt =====
-- The web console of tio.
--
-- tio's console (web/src) is a single page that manages things and their shadows over HTTP and talks
-- to the broker as any number of MQTT clients. This library models its logic, the JavaScript and
-- TypeScript under web/src, and proves what makes it correct. The server, which is another program,
-- the Vue templates, and the libraries (vuex, mqtt, axios, element-plus) are not modelled.
--
-- How the parts fit together. The store (store/mqtt.ts, app.ts, user.ts) holds the configurations of
-- connections and what is shown of each; it restores them from the browser's storage. A delegate
-- (utils/MqttDelegate.js) owns one client of the library mqtt: a method or an answer of the client
-- changes the delegate and dispatches to the store. The composable useMqtt works on configurations
-- and delegates together; components call it. The subscription lists (utils/subs.js) say what may
-- be subscribed, and matching of topics which messages a filter shows. The shadow view compares the
-- reported and the desired state (utils/shadow.js). The list of things is gathered page by page
-- (reactives/useThingsAndShadows.js). Whether somebody is logged in decides which view the router
-- shows, and an answer 401 of the server logs out.
--
-- Files and code:
--   Common             shared names, Boolean tests, lists, texts, and objects as association lists
--                      in the order of insertion (Common/Dict)
--   Topic              matchTopicMethod of web/src/utils/subs.js. Levels is an independent relation of
--                      filters and topics, Split the link between texts and levels, Laws the results
--   Suggestions        web/src/configs/mqtt-suggestions and the lists that configs/tool.js joins
--   Notify             web/src/utils/layout.js; a notice is a value
--   Subs               the rest of web/src/utils/subs.js; Laws, and Own for a thing's suggestions
--   Json               JSON values, and the numerals of indices (Decimal)
--   Shadow             web/src/utils/shadow.js. Delta describes a delta key by key, Laws and Same
--                      say what it holds and when there is none, Total when no exception is thrown
--   Config, Client     web/src/utils/mqtt.js: the form of a connection, the client's options, the
--                      address, payload conversion
--   Store              web/src/store: state, actions, and what the browser's storage keeps
--   Delegate           web/src/utils/MqttDelegate.js: a method is a function from a delegate to a
--                      delegate and its effects in order. State has the data; Publish and
--                      Subscribe hold the longer methods with the callbacks that the client runs
--                      later, Events the relation of all that can happen to a delegate, with its
--                      invariants
--   UseMqtt            web/src/reactives/useMqtt.js and the registry of delegates; Frame says what
--                      running effects leaves alone; Remove, RemoveAll and Subscribing are about
--                      configurations, Calls about what is handed to a delegate, and Life about
--                      every order of calls and events since the page was loaded, with what
--                      components write into the configurations of the store
--   Things             web/src/reactives/useThingsAndShadows.js; Paging for the loop over pages
--   Router             the guard of web/src/router.ts, with the redirects that follow it
--   Session            web/src/apis/client.js with log-in (components/views/Login.vue), log-out
--                      (components/layout/TopNavBar.vue) and reloads; Laws has the relation of all
--                      that can happen to a session
--   Layout             web/src/store/layout.ts, web/src/reactives/useLayout.js and the table of tools
--                      in configs/tool.js; Laws has the relation of all that a user can do
--   KeyValues          web/src/components/common/KeyValueEditor.vue; Run has the relation of all edits,
--                      Kept the rows that are kept
--   JsonEditor         web/src/components/common/JSONEditor.vue around the library's editor
--   Viewer             web/src/reactives/useThingEvent.js and useObjectViewer.js, with
--                      notifyThingStateChange of web/src/utils/event.js
--   MessagesView       web/src/components/mqtt/MqttMessage.vue
--   PublishView        web/src/components/mqtt/MqttPublish.vue and MetaForm.vue
--   PubTopics          web/src/components/mqtt/PublishTopicSuggestions.vue, with the templates of payloads
--                      in configs/mqtt-suggestions/pub-topics-*.js
--   SubsForm           web/src/components/mqtt/SubscriptionForm.vue
--   SubsList           web/src/components/mqtt/Subcriptions.vue: Actions has the handlers; Edit, Stored
--                      and Distinct say what they leave
--   ConnForm           web/src/components/mqtt/MqttConnForm.vue: Connect has what is handed on, with
--                      handleCreateOrEditDone of tools/MqttClients.vue, and Trial the trial client
--   ClientsTool        web/src/components/tools/MqttClients.vue and mqtt/MqttClientDetail.vue, with
--                      selectedConn of useMqtt
--   ClientsOfThing     web/src/components/thing/MqttClientsOfThing.vue
--   SetReported        web/src/components/thing/ShadowData.vue; Connects follows the user's answer through
--                      the delegate to the event that comes back
--   StateView          web/src/components/common/StateViewer.vue
--   Poster             web/src/components/thing/HttpPoster.vue and shadowApis of configs/thing.js
--   AddThing           web/src/components/layout/AddThingForm.vue
--   ListView           web/src/components/views/List.vue, with answers in any order
--   ThingView          web/src/components/views/Thing.vue
--   TopNav             web/src/components/layout/TopNavBar.vue but for logging out
--   Tables             web/src/components/list/CustomTable.vue and StandardTable.vue; Logs and Tags are
--                      tools/HttpLogs.vue and thing/ShadowTags.vue
--
-- Of a component the script is modelled, its refs as a record and its watches as functions that the
-- handlers call where Vue would run them. Components work on the state of all connections (World of
-- UseMqtt), the state of the application (Store) and the layout's page.
--
-- Conventions. Random identifiers, the time and window.location enter as arguments. What the
-- libraries do enters as an argument too: the client that `connect` creates, the codec of buffers, the
-- codec of the stored configurations, the server's answers. An exception is a value (none, or
-- `type_error` in Shadow). undefined and a missing key are both none where the code treats them
-- alike. A callback that is handed to a library is a definition of its own, since it runs later; the relation
-- Reach (Delegate/Events) runs methods and callbacks in any order. JavaScript's subtraction and
-- wrap-around do not occur: numbers only count. An object lists its keys in the order of
-- insertion; that JavaScript moves keys that look like indices to the front is not modelled, and no
-- statement depends on the order of keys.
--
-- Bounds and fuel. mergeState recurs on its first argument, and the model does so too, without fuel.
-- The loop of updateThings has fuel; its theorem gives the amount, one more than the number of things,
-- which is enough for every page size above 0. The router asks its guard at most twice, and the fuel
-- is 2. All other loops run over lists.
--
-- Not modelled: output on the console, templates and styles of
-- the Vue components and those that have no script to speak of, the request wrappers of web/src/apis,
-- and tables that only label forms.
pub mod AddThing
pub mod Client
pub mod ClientsOfThing
pub mod ClientsTool
pub mod Common
pub mod Config
pub mod ConnForm
pub mod Delegate
pub mod Json
pub mod JsonEditor
pub mod KeyValues
pub mod Layout
pub mod ListView
pub mod MessagesView
pub mod Notify
pub mod Poster
pub mod PubTopics
pub mod PublishView
pub mod Router
pub mod Session
pub mod SetReported
pub mod Shadow
pub mod StateView
pub mod Store
pub mod Subs
pub mod SubsForm
pub mod SubsList
pub mod Suggestions
pub mod Tables
pub mod ThingView
pub mod Things
pub mod TopNav
pub mod Topic
pub mod UseMqtt
pub mod Viewer
