-- ===== src/Lib.antt =====
-- A model of react-native-pushy, the hot-update client: its JavaScript side asks an update server for
-- a newer bundle, decides what to do with the answer, downloads the bundle over several mirrors and
-- strategies, and switches the app to it; its Harmony module keeps the versions of a device, opens
-- one of them at each launch, and rolls back one that does not confirm itself.
--
-- The parts, and how they call each other:
--   * Flow (src/updateFlowCore.ts): the pure decisions. A check sends the body that
--     buildCheckRequestBody builds to the endpoints in the order of orderEndpointCandidates;
--     resolveCheckResult reads the answer, with the rollout bucket of isInRollout;
--     decideDownload turns it into a plan of attempts, whose URLs joinUrls builds. Its children are
--     Hash (murmurhash3_32_gc, isInRollout), Urls (joinUrls), Endpoints (dedupeEndpoints,
--     orderEndpointCandidates), Request (buildCheckRequestBody), Verdict (isValidCheckResult,
--     resolveCheckResult) and Plan (decideDownload and its companions).
--   * Endpoint (src/endpoint.ts): the hedged race among endpoints, selectFastestSuccessfulEndpoint,
--     as a state and its events, and executeEndpointFallback, which discovers further endpoints
--     within a budget of requests.
--   * Download (src/clientDownload.ts, with ping, promiseAny, testUrls and isProtocolDowngrade of
--     src/utils.ts): Mirrors ranks the mirrors of an artifact, Work is the retry loop of
--     performDownload over strategies and mirrors, Perform what it reports and commits after it.
--   * Activation (src/clientActivation.ts over src/clientState.ts): State is the process state and
--     the ownership of applyingUpdate, Machine has one function for each call and for the code behind
--     each await, Run puts them in sequence with the callbacks of the reload watchdog.
--   * Check (src/clientCheck.ts): the remote endpoint lists, what one request comes to, Cache the reuse
--     of the response that the native check left, and Window checkUpdate as steps over the promise
--     that equal checks share. What a request promise comes to is an event of Window: a run of the
--     endpoint fallback, or the cached response. So is whether afterCheckUpdate throws at once
--     (notifyAfterCheckUpdate of src/clientReporter.ts), which the steps take as their listener.
--   * NativeConfig (src/clientNativeConfig.ts): the configuration of the native check, and Machine the
--     queue that writes it; Latest is what the queue promises. Its child Canonical is
--     nativeConfigsEquivalent (src/updateFlowCore.ts).
--   * Harmony (harmony/pushy/src/main/ets): StateCore is the state machine of versions
--     (cpp/patch_core/state_core.cpp), Store the layout that StoreSchema.ts persists it in, with its
--     migration, and Context the operations of UpdateContext.ts on memory and disk: Launch opens a
--     bundle, Commit persists what the native check decided, and Exclusive keeps activation apart
--     from the deletion of old versions; Cleared is what a reset and an upgrade leave. Round is the
--     coordination of the native check (SyncCoordinator.ts): who starts its one round, and what the
--     hosts that wait are told.
--   * Errors (src/error.ts), Events (EventType of src/type.ts and the error codes) and Telemetry
--     (src/telemetry.ts and the reporting half of src/clientReporter.ts): how a thrown value becomes
--     a coded error, and what of an event reaches the server.
--   * Json: JavaScript values with a JSON shape, as objects with ordered members; its child Equal is
--     jsonDeepEqual (src/updateFlowCore.ts). Common: the shared names, tests, lists, integers, text as
--     UTF-16 code units, and the places of a list of awaited promises.
--
-- Correspondence. A function of the source has its name in lower case with underscores:
-- resolve_check_result is resolveCheckResult, after_switch_hook is the code of switchVersion behind
-- `await runBeforeReload`. Names of constructors are the source's string literals. Asynchronous code
-- is explicit: in Endpoint.Race an event is the settlement of a request or the firing of the hedge
-- timer; in Activation.Run the promises that are awaited stand in a list, and a step is a call, the
-- settlement of one of them, or the callback of a timer that was set, a cleared one included. Every
-- order of such events is a list. Check.Window, NativeConfig.Machine, Harmony.Round and
-- Harmony.Context.Exclusive are built the same way; the last has what memory and what the disk holds,
-- and the end of a flush is an event. In the other operations of Harmony.Context an argument says
-- whether a flush succeeds, whether the store can be read as a whole (getAllSync in removeKeys),
-- whether the verification passes, and what the context has become behind it.
--
-- Numbers and text. Code units and counters are native natural numbers; the arithmetic of the hash
-- keeps its 32-bit wrap-around as remainders, and the numbers of a response are integers. A text that
-- JavaScript may leave undefined is an Option, or "" where the code only asks whether it is falsy.
--
-- Loops and fuel. No definition runs on a fuel that could run out: the retry loop counts the retries
-- that are left, the race is driven by its events, and the rounds of the endpoint fallback by the
-- requests that are left in its budget, each of which spends at least one. The loop of getBundleUrl
-- runs at most three times: rolling back leads to the last version, and from there to none.
--
-- Parameters. What the source takes from elsewhere is a parameter: the outcome of every native
-- download, by its number, so that no two need agree; the answers of the mirrors; the translation of
-- messages; the conversion of other values to text; the random sample; JSON.stringify, JSON.parse, and
-- the text of a number; on the Harmony side which bundle files are accessible, the plan of a
-- migration, and which configurations are runnable and equivalent.
--
-- Not modelled: the transport (fetch, timeouts, the native modules themselves), React's provider,
-- logging, translation tables, progress callbacks, exception capture, the native code under android
-- and ios, and of the Harmony module the engine of a round, the download of a version, the hash of
-- the packaged bundle and the file operations.
pub mod Activation
pub mod Check
pub mod Common
pub mod Download
pub mod Endpoint
pub mod Errors
pub mod Events
pub mod Flow
pub mod Harmony
pub mod Json
pub mod NativeConfig
pub mod Telemetry
