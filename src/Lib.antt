-- ===== src/Lib.antt =====
-- external-crd: an API server that serves the custom resources of a cluster from an "overlay" group, and
-- stores each object as a KubernetesCrd manifest in one reserved namespace.
--
-- The parts of the program, and how they interact. For each CustomResourceDefinition of the cluster the CRD
-- handler (pkg/apiserver/overlay/customresource_handler.go) asks the table of priorities (priority.go) whether
-- the definition's group may serve the resource, and if so adds it to version discovery and makes a REST
-- storage, a request scope and the routes for it. A request goes by its verb to a handler of k8s.io/apiserver,
-- with the storage and the scope of its resource. The REST storage (rest.go) takes the cluster and the
-- namespace from the caller's name, sends a new object to the API server as a dry run, and keeps what comes
-- back in a manifest whose name and labels name the resource, the cluster, the namespace and the object.
--
-- Which file models which part:
--   Prelude       texts as lists of bytes with Go's package strings, maps, integers, and Outcome: a value, an
--                 API error or a panic; Exec is an action on the state of the API server
--   Utils         pkg/utils: Constants (constants.go), Watch (watch.go), ApiResource (apiresource.go),
--                 KubeConfig (kubeconfig.go) and Flag (flag.go)
--   Rest          pkg/apiserver/overlay/rest.go: User (getClusterNamespace, getUser), Objects (REST, the types of
--                 pkg/apis/kcrd/v1alpha1 and the interfaces), Names (the setters, getNormalizedManifestName),
--                 Manifest (labels, transformManifest, trimResult), DryRun (dryRunCreate), Crud (Create, Get, Update,
--                 Delete), Tenant (what these four promise one caller), Listing (convertListOptionsToLabels,
--                 List), Watch (Watch), Collection (DeleteCollection), and Lister, the generated lister of pkg/generated/listers
--   Handler       customresource_handler.go, priority.go and apiserver.go: Priority (canBeAddedToStorage), Crd
--                 (what is read of a definition), Discovery (versionDiscoveryHandler), State, Routes and Storage
--                 (crdHandler, addStorage, removeStorage), Events (the informer's handlers), Serve (ServeHTTP), Install
--                 (InstallOverlayAPIGroups up to its last call) and Groups (installAPIGroups, installAPIResources)
--   Setup         Factory (pkg/generated/informers: the factory of informers), Options (pkg/apiserver/options.go), Server
--                 (pkg/apiserver/server.go, New of options.go, pkg/utils/version.go and the command of cmd/main.go) and
--                 Signal (pkg/utils/signal.go)
-- A function of the program has its name in snake case. A module below a part holds its theorems, and modules
-- that end in Tests hold runs and instances; Rest/Example is a small API server for these.
--
-- State and concurrency. A handler of rest.go is an action on a state of the API server that the interface
-- Backend of Rest/Objects leaves open; a mutated pointer is a new value. The methods of crdHandler take and
-- return the record Handler with the global table of priorities; the informer calls them one after another. The
-- distributor and the workers of DeleteCollection, the goroutines of a WatchWrapper and the one that receives
-- signals are step relations, so their theorems hold for every interleaving. No definition runs on fuel: all recursion is on the structure of lists.
--
-- What is a parameter: the accessors of unstructured.Unstructured and JSON (Machinery), the client, the lister
-- and the dry run (Backend), selectors (Selectors), go-restful (WebServices), the helpers of apiextensions
-- (CrdFunctions), the container of web services (Containers), CompareKubeAwareVersionStrings and client-go's
-- loaders. The records MachineryLaws, FieldLaws, FrameLaws, CreateLaws, UpdateLaws,
-- DeleteLaws, IsSynced, SelectorLaws, CompleteLaws, WebServiceLaws and ContainerLaws state their documented behaviour, where a theorem needs it. Errors of the
-- API carry what the program puts into them or tests; the wording of messages is left out.
--
-- What is not modelled: the handlers of k8s.io/apiserver, serializers and the parameter docs of routes,
-- the flags of the command, the registration of schemes, and the generated clients.
-- Of a generic server of k8s.io/apiserver only what is called of it is there: the program's part in its start.
pub mod Prelude
pub mod Utils
pub mod Rest
pub mod Handler
pub mod Setup
