-- ===== src/Lib.antt =====
-- A model of the FluxFast client runtime, the framework-neutral package packages/core, and of
-- what its parts promise each other.
--
-- The server sends pages that name resources, and resources with a version.
-- packages/core/src/store.ts keeps the resources, tells subscribers of each change and evicts
-- the least recently used; packages/core/src/mutation.ts changes a value by the patches of a
-- mutation or of a live event, which the store's `patch` applies; packages/core/src/cache.ts
-- keeps page shells that name the versions they show, and reads the store to tell whether a
-- shell is still valid; packages/core/src/resource-epochs.ts keeps a bounded history by which
-- late responses are recognised. packages/core/src/live/manager.ts holds the connection that
-- delivers live events, and opens it again when it is lost. packages/core/src/events.ts tells
-- listeners what the parts do. packages/core/src/prefetch.ts fetches pages ahead of a visit.
-- packages/core/src/router.ts, the class FluxRouter, has one of each of them: it navigates,
-- loads resources, applies mutations and live events, and decides by the epochs which answers
-- come too late. packages/core/src/transport.ts and live/protocol.ts check what is decoded
-- before any of them sees it.
--
-- Files:
--   Shared, Shared/*      lists, texts, Boolean tests, and the runtime's Map in insertion order
--   Value, Value/Laws     JSON values, `===`, `String(v)`, property lookup, object spread
--   Mutation              packages/core/src/mutation.ts: matchItem, applyPatchToValue
--   Store/State           the fields of ResourceStore (packages/core/src/store.ts)
--   Store/Internals       notify, touchLru, evictIfNeeded, updateStateSnapshot; invalidate
--   Store/Operations      the constructor, subscribe, getSnapshot, getRecord, set
--   Store/Changes         setMany, the marks, patch, exportKnownVersions, clear
--   Store/Validity        when a store is well formed; the files after it prove it kept
--   Store/Reachable       stores reached from the constructor by any list of calls
--   Cache, Cache/*        packages/core/src/cache.ts: PageCache
--   Envelope              packages/core/src/protocol.ts: the envelopes; PageStore of store.ts
--   Prefetch, Prefetch/*    packages/core/src/prefetch.ts and prefetch-cache-policy.ts
--   Live/State            the fields of LiveManager (packages/core/src/live/manager.ts)
--   Live/Internals        setSnapshot, startConnection, scheduleReconnect, stopConnection
--   Live/Methods          connect, disconnect, updateManifest, the timer, the loop `consume`
--   Live/Keys             serializeLiveKeys (packages/core/src/live/transport.ts),
--                         normalizeManifest, assertClientId (live/client-id.ts)
--   Live/Protocol         assertLiveEvent (packages/core/src/live/protocol.ts)
--   Live/Stream           parseFrame, FluxSseParser (packages/core/src/live/transport.ts)
--   Live/Coherence        what the fields say of each other; Steps and Lifecycle prove it kept
--   Live/Runs             every sequence of steps of a manager
--   Epochs, Epochs/*      packages/core/src/resource-epochs.ts: ResourceEpochMap
--   Events, Events/Laws   packages/core/src/events.ts: EventEmitter
--   Router/State          the fields of FluxRouter (packages/core/src/router.ts)
--   Router/Basics         bumpResourceEpoch, supersedeLiveWork, the aborts
--   Router/Loads          loadResources, startDeferredBatch
--   Router/Pages          applyPageEnvelope, cachePageEnvelope
--   Router/Visits         visit, refresh, the history listener, startLive, stopLive, clear
--   Router/Signals        mutate, prefetch, handleLiveEvent, queueLiveRefresh
--   Router/Start          the constructor
--   Router/Soundness      when a router is sound; the files Router/Sound* prove it kept
--   Router/Runs           every sequence of steps of a router
--   Router/Bumps          new epochs one after the other; Router/Applying, what applying an
--                         envelope does to the store's other resources, with Store/Others
--   Router/Races          which answers are applied, by the epochs; Router/Eligibility, what of a
--                         page's envelope is
--   Router/Endings        what comes too late for `clear`, and a page that cannot be applied
--   Transport, Transport/*  packages/core/src/transport.ts: the checks of envelopes, and which keys
--                         and versions go into the headers
--   Tests, Tests/*        runs at fixed inputs
--
-- A method becomes a function from the state and its arguments to the new state, with its result
-- where it has one; a constructor that throws returns an Option. `Set` and `Map` keep insertion
-- order, as the language says. A subscriber is a number, and notifying it adds it to the list
-- `calls` of the store, so that the order and the number of the calls can be read off;
-- subscribers are taken not to call the store back. `Date.now()` is an argument. Arrays and
-- objects carry the reference by which `===` compares them, and an operation that builds a new
-- one takes the new reference as an argument.
--
-- A live manager is a state machine: each method call, network change, timer callback and round
-- of the loop over a connection is one step, with what the network adapter and the transport
-- answer as arguments, and a run is a list of steps. A timer is pending exactly while the field
-- `reconnectTimer` holds it. What the manager does outside its fields is a list of effects. The
-- delay of the timer, which is arithmetic on fractions, is left out, as are the sets of
-- listeners.
--
-- A method of the router that waits is split at its waits. The part after a wait takes what the
-- method had captured, and the answer or the failure, as arguments; a run is a list of such
-- parts, in any order and with any answers, so that it covers every interleaving. Visits, loads
-- and abort controllers are numbers. Within one part the clock's reading does not change, and
-- listeners do not call the router back, so that the source's tests between its calls for a new
-- lifecycle or a new visit are made once, where a part starts. The diagnostics hub is inactive.
-- The parser of the stream works on the text that the runtime's decoder makes of the bytes, and
-- JSON.parse is an argument of it. A decoded object has its properties in the order of
-- `Object.entries`; whether a text is an HTTP URL is an argument of the mutation's check. The
-- fingerprint of a prefetch, which consists of functions of the runtime, is an argument. What
-- the live transport answers and whether the network is there come with the step.
--
-- The loop of evictIfNeeded runs on fuel: the length of the LRU order is enough, since each
-- round takes one key off it, and the proof that eviction ends within the limits shows so. The
-- loop of evictInFlight runs on fuel too: the number of requests is enough. So does the loop
-- over the frames of a stream, on the length of the buffer: every frame takes its separator off
-- it. The digits of a number, as `toString(36)` writes them, are built on fuel that is larger
-- than the number.
--
-- Not modelled: getRecordsSnapshot of store.ts, a listing for diagnostics; startInitialDeferred
-- and destroy of the router; keys and names that every object inherits, but for the lookup of
-- getValid, and an id object with a toString or valueOf of its own, at which String throws; the
-- fetch calls of the transport, the encoding of its headers, its development trace and the fetch
-- of the live events; network, timers, history and scrolling; the adapters for React, Next and
-- Vite, validation, code generation and the devtools.
pub mod Shared
pub mod Value
pub mod Mutation
pub mod Store
pub mod Epochs
pub mod Cache
pub mod Live
pub mod Events
pub mod Envelope
pub mod Prefetch
pub mod Router
pub mod Transport
mod Tests
