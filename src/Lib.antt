-- ===== src/Lib.antt =====
-- polaris-controller keeps a Polaris server and a Kubernetes cluster in step. Informers call event
-- handlers, which put tasks into a work queue; workers take the tasks and compare the cluster's
-- objects with what was last seen and with what Polaris has, and send requests to Polaris's HTTP
-- API. A watcher goes the other way and writes config files of Polaris into ConfigMaps. A webhook
-- decides which pods get a sidecar, and answers with a JSON patch of the pod.
--
-- Parts and files, with the sources they model:
--   Kube                  the objects of k8s.io/api/core/v1, with the fields that are read
--   Util, Util/           pkg/util/types.go, helper.go, controller_utils.go; Maps map.go
--   Api, Api/             pkg/polarisapi: Http (polarisHttpRequest, lookAccessToken, CheckHealth),
--                         Split (splitArray), Instances (AddInstances, DeleteInstances,
--                         UpdateInstances), Services (namespaces, services, aliases), Configs
--                         (config_api.go), Types (types.go, constant.go)
--   Address, Address/     pkg/util/address/address.go
--   Controller/Tasks      pkg/controller/types.go: Task and its Key
--   Controller/State      the fields of PolarisController, its configuration and surroundings (Env)
--   Controller/Select     IsPolarisService, IsPolarisConfigMap, isPolarisEndpoints
--   Controller/Instances  apis.go and processSyncInstance of endpoint.go
--   Controller/Services   service.go: syncService; Controller/ConfigMaps configmap.go: syncConfigMap
--   Controller/Namespaces namespace.go
--   Controller/Events     the handlers of service.go, configmap.go and endpoint.go
--   Controller/Resync     rsync.go: resyncWorker and checkHealth
--   Controller/Worker     controller.go: process, handleTask and worker
--   Watcher, Watcher/     PolarisConfigWatcher of configmap.go
--   Executor, Executor/   pkg/util/scheduler.go
--   Inject, Inject/       requireInject of pkg/inject/pkg/kube/inject/inject.go, getInjectMode of
--                         common.go; Owner getOwnerMetaAndType of common.go
--   Inject/Patch          apply/base/patch.go: the operations on lists of a pod
--   Inject/Annotations    updateAnnotation and addLabels of webhook.go
--   Inject/Webhook        createPatch of webhook.go over an interface of patch builders; Status the
--                         status annotation of pod.go
--   Inject/PodData        assignPodDataInfo of pod.go
--   Inject/Admission      getPodPatch of base.go, checkPodData and assignInjectAnnotations of pod.go,
--                         injectV1 of webhook.go; Serve serveInject; Validate validate_funcs.go;
--                         Concurrency concurrency.go; TemplateFuncs template_funcs.go
--   Inject/Mesh           apply/mesh/patch.go and sidecar.go, the builder of the modes mesh and dns
--   Inject/JavaAgent      apply/javaagent/patch.go, the builder of the mode java-agent
--   Logging, Logging/     common/log: Levels options.go, Scopes scope.go, default.go and logger.go,
--                         Config and Dates config.go
--   Manager, Manager/     cmd/polaris-controller/app: Options options/polaris.go, Config config.go and
--                         initControllerConfig, Registration registerController
--   Common, Common/       lists, texts, dictionaries for Go's maps, results
--   Tests, Tests/         sample values, and the theorems at concrete inputs
-- A function of the source keeps its name in lower case with underscores.
--
-- State and effects. The controller is a record (Controller.State.Controller) whose `sent` and
-- `added` are the requests sent and the tasks queued, newest first. A function that may fail and
-- change it is an Exec: from a state to an outcome (a value, an error or a panic) and a state. The
-- listers of the informers, the SDK, the server and the decoders of encoding/json are functions in
-- Env, and client-go's queue is the record WorkQueue; theorems hold for all of them unless a
-- hypothesis says otherwise. Delayed tasks carry the time at which they are due.
--
-- Bounds. Go's int is an integer without a bound, save where strconv.Atoi and the executor's modulus
-- read 64 bits. splitArray rounds by floating point, which is exact below 2^53 elements; the integer
-- that the platform makes of the infinity for a size of 0 is a parameter. Loops
-- recurse on their lists; itoa has one unit of fuel more than its number, and a number has no more
-- digits than that; worker takes the number of its rounds. A character counts as one byte in keys,
-- as names in Kubernetes are ASCII. A line of a ConfigMap's template is shorter than the 64 KB at
-- which a bufio.Scanner stops.
--
-- Patches. The operations on one member of a pod are a list of their own (Inject.Patch.Operation), and
-- Patch/Lists and Annotations/Merged apply them as RFC 6902 says: an index that is not there, or an
-- entry that is replaced without being there, refuses the patch. PatchOptions, which the builders
-- change, is the state of an Exec; what PatchContainer writes to the slice of its request is written to
-- the options that share it.
--
-- The log. A pointer to a scope is its name in the map of scopes; zap's cores are values that two
-- parameters ask whether they are enabled and whether a write fails. What a call writes, and the code
-- given to os.Exit, are in the record Log. initControllerConfig configures this log first.
--
-- Not modelled: the order among goroutines (the batches of one request are sent in their order), the
-- stream of the config watcher, the lines that the modelled parts log, metrics, event records, the
-- wiring of informers, clients and leader election under cmd/; the rest of pkg/inject (the start of the webhook, the filling of templates and the
-- encoders that they call); pkg/cache, which wraps sync.Map; generated code.
pub mod Common
pub mod Kube
pub mod Util
pub mod Api
pub mod Address
pub mod Controller
pub mod Watcher
pub mod Executor
pub mod Logging
pub mod Manager
pub mod Inject
pub mod Tests
