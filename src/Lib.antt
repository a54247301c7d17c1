-- ===== src/Lib.antt =====
-- A model of docker-lxc-daemon, which serves the Docker API over LXC containers and Proxmox CTs, with
-- proofs about it. Paths below are from the root of the repository.
--
-- The parts of the program. internal/store keeps the metadata of containers, images, volumes and
-- networks in memory, and writes them to one JSON file; it hands out the addresses of the managed
-- bridge, and the guard that serializes the work on one container. internal/image resolves a Docker
-- reference to a distribution template, a built-in application or an OCI pull. internal/lxc drives LXC
-- and Proxmox; its watchers look at the records of the store and restart, remove, collect and probe
-- containers. internal/api serves the requests, and selects records by the filters of a request.
--
-- The files.
-- - Prelude, Strings, Dict: numbers, lists, texts as lists of bytes (with the functions of Go's package
--   strings that the source calls, and strconv.Atoi) and maps as association lists.
-- - Store/Records, Store/State: the structs of internal/store/store.go, `save` and `NewAt`.
-- - Store/Ip: `parseManagedIPOctet`, `usedIPOctetsLocked`, `appendFreeIPLocked` and the search of
--   `AllocateIP`. Store/Containers, Store/Images, Store/Networks: the operations on records
--   (`AddContainer` is add_container, `UpdateContainer` is update_container, and so on).
-- - Store/Containers/Addresses: allocations, writes of an address to a new record or one that is there,
--   failed creates and removals as steps of a daemon that also knows which addresses were handed out but
--   are in no record yet.
-- - Store/Lifecycle: `LockContainerLifecycle`, cut into its atomic pieces; the interleavings are a step
--   relation over a heap of lock objects.
-- - Image/Table, Image/Distro, Image/Registry, Image/Resolver: distro.go, registry.go and resolver.go.
-- - Api/Filters, Api/ListFilters: filters.go and list_filters.go of internal/api. Api/Env: `mergeEnv`,
--   `ensureDefaultPath` and `envValue` of containers.go.
-- - Lxc/Restart: `shouldRestart`, `shouldStartNeverStarted`, `enforceRestartPolicy`,
--   `shouldGarbageCollect` and `gc` of internal/lxc/manager.go, with the calls that they make as a list
--   of actions. Lxc/Health: `runDueHealthchecks` and `runOneHealthcheck`. Lxc/Vmid: `allocateVMID` and
--   `releaseVMID`, with creates that interleave, failed ones included. Lxc/Hosts: internal/lxc/dns_hosts.go, that is
--   the managed block of /etc/hosts, the peers it names and the writing of the files.
-- - Lxc/Forwards: the published ports. Chains reads the listings of nft and gives the commands that
--   change its table (internal/lxc/network.go), Reconcile is `reconcilePortForwards` of manager.go: what
--   a tick observes is a record, what it does is the list of its calls and the strikes it keeps;
--   History is a run of ticks.
-- - Api/Signals, Api/Stop: `exitCodeForSignal`, `isValidSignal`, `stopWithIntentLocked`,
--   `stopRecordingExit`, `stopContainer` and `killContainer` of containers.go.
-- - Api/Build: internal/api/build.go. Syntax is the parser and the words of an instruction, Variables
--   the build arguments, Stages the stages and the choice of the target, Evaluate what a stage gives
--   its image, and Run the steps of `buildFromContext` with the calls that they make.
-- - Api/Exec: `execStore` of internal/api/exec.go, and the writes to it as operations of a history.
-- - Api/Frames: `writeStreamFrame` and `writeFramedStream` of containers.go. Api/Logs: `parseTail`,
--   `readTail`, `readRotatedTail` and the lines of `containerLogs` that call them. Lxc/State: `State` and
--   `lxcInfoState` of manager.go.
-- - Api/Escape: `parseDetachKeys` and the `escapeReader` of internal/api/exec_detach.go.
-- - The modules Tests and Samples hold runs and concrete inputs.
--
-- How the source is read.
-- - A record is a value. The copies that the store makes of records are therefore not modelled, and a
--   closure passed to `UpdateContainer` is a function from record to record.
-- - A map is a list of pairs in the order in which `range` meets them; the theorems hold for every
--   order. No map entry is a nil pointer.
-- - What a call outside the program answers is an argument: the call of `save` that fails, the results
--   of `State`, `StartContainer`, `RemoveContainer` and of a probe, the SHA-256 of a reference, and the
--   decoders of JSON and of RFC 3339 times. The state file is named by the state that was encoded to it,
--   and what the decoder makes of its text is an argument of `new_at`.
-- - Octets, ports and VMIDs are natural numbers; times, durations, exit codes and counters are
--   integers without a bound. Texts are compared byte by byte, and case and space are those of ASCII.
-- - Three loops have fuel. The search from the counter of `AllocateIP` has 255 rounds, where the loop ends
--   at 254 and so makes at most 255. The search of `allocateVMID` has one round more than there are ids
--   in use or reserved, and so meets a free one. The options of HEALTHCHECK have as many rounds as the
--   text has bytes, and each takes two of them. The other loops run over lists.
--
-- Not modelled: the encoding of JSON, IPv6 spellings of an address (the store only writes dotted ones), log lines, tickers,
-- the HTTP handlers around the filters, the streams of exec sessions, the files and requests of image
-- builds, BuildKit, archives, the bridge and the addresses on the LAN, the configuration files of LXC
-- and Proxmox, and the pull of OCI images. Most of this is the input and output of other programs; its
-- own rules (comparing versions, selecting containers, writing LXC configuration) are left out so far.
pub mod Api
pub mod Dict
pub mod Image
pub mod Lxc
pub mod Prelude
pub mod Store
pub mod Strings
