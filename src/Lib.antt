-- ===== src/Lib.antt =====
-- The controller of teiid-operator: it turns a VirtualDatabase resource into a Maven project, two image
-- builds, services, key stores and a deployment, one step of a state machine per reconciliation.
--
-- The reconcile loop. Controller/Reconcile.antt is
-- pkg/controller/virtualdatabase/virtualdatabase_controller.go: Reconcile reads the resource, redeploys it
-- where the digest of its source changed (Controller/Updater.antt, updater.go; Controller/Digest.antt,
-- digest.go), and else offers it to a list of actions (Controller/Actions.antt, action.go and the CanHandle
-- methods; Controller/Steps.antt, the list itself). An action works on a copy of the resource in memory and
-- on the cluster; when it changed the copy, the loop stores it and ends.
--
-- The actions, in the order of the phases. Controller/Initialize.antt (initialize.go) checks the names and
-- what the variables refer to. Controller/CacheStore.antt (cachestore.go) creates the cache store, with
-- Controller/Infinispan.antt (pkg/util/cachestore/infinispan.go). Controller/BuilderImage.antt and
-- Controller/BaseImage.antt (s2i_builder_image.go) build the base image, Controller/ServiceImage.antt
-- (service_image.go) the image of the service; Controller/Images.antt is pkg/util/image/image.go,
-- Controller/Payload.antt the files of the second build and Controller/Ddl.antt is pkg/util/vdbutil/ddl.go.
-- Controller/Services.antt and Controller/Services/Handle.antt (create-service.go) create services and the
-- route. Controller/Certificates.antt (create-certificates.go) makes the key stores.
-- Controller/Deployment.antt (deployment.go) with Controller/Pods.antt runs and tends the deployment, with
-- the variables of Controller/Environments.antt (default_envs.go). Controller/Monitor.antt and
-- Controller/Rules.antt (prometheus-monitor.go, prometheus-config.go) register it with the monitoring.
-- Controller/Watches.antt (watch.go) registers the controller. They call Controller/Kubernetes.antt and
-- Controller/Kubernetes/Resource.antt (pkg/util/kubernetes), Controller/ConsoleLinks.antt
-- (pkg/util/openshift/webconsole.go), Controller/Config.antt with Controller/Config/Load.antt
-- (pkg/util/conf and constants) and Controller/Pom.antt (pom.go). Vdb.antt is the custom resource of
-- pkg/apis/teiid/v1alpha1/virtualdatabase_types.go.
--
-- The packages below them. Envvar (pkg/util/envvar/envvar.go) are lists of environment variables; Proxy
-- (pkg/util/proxy/proxy.go) the proxy settings; Vdbutil (pkg/util/vdbutil/parser.go) the reading of DDL;
-- Spring (convert-ds-properties.go) the variables of data sources; Maven/Types.antt, Maven/Project.antt,
-- Maven/Gav.antt and Maven/Download.antt are pkg/util/maven. Archive.antt unpacks archives
-- (pkg/util/zip/zip.go), which Controller/Ddl.antt uses, KeyStore.antt makes key stores
-- (pkg/util/pkcs12/pcks12.go), Events.antt is pkg/util/events/events.go, Password.antt draws a password and
-- Util.antt has the other helpers of pkg/util/util.go. Maven/Settings.antt has the settings of Maven. Regex
-- is the matching of Go's package regexp, by which the source reads texts: a match is the first in the
-- order of the alternatives, as Perl's is.
--
-- The specification. Controller/Transitions.antt has the diagram of the phases as a relation, and what a
-- run may do to a resource; the files below it check each action against the diagram, whatever the calls of
-- the cluster return. Controller/Steps/Once.antt joins them for a run of the loop,
-- Controller/Steps/Progress.antt and Controller/Steps/Trail.antt for histories of runs, redeployments and
-- edits, Controller/Steps/Runs.antt for the phases that no run leaves, Controller/Steps/Arrived.antt, over
-- Controller/Steps/Verdicts.antt, Controller/Steps/Arrivals.antt and Controller/Steps/Waits.antt, for the
-- reconciliations that end a wait, and Controller/Steps/Reconciled.antt for what Reconcile leaves in the
-- cluster. Controller/Frame.antt states what a call keeps of the cluster, the files below it go through
-- every function of the steps with it, and Controller/Frame/Written.antt concludes what a reconciliation
-- writes.
--
-- State and errors. Exec.antt has functions that change a state and return a Go pair of a value and an
-- error; what was written before an error stays written. A panic is an error of its own: where a caller
-- looks at the error of code that may panic (guarded), the panic goes through it. Controller/Cluster.antt
-- is what the operator asks of the API server, of the network and of the machine, as a record of functions
-- on a state W of the cluster that every definition takes as a parameter; so the other controllers may act
-- between two calls. The objects that it reads and writes there are in Controller/Cluster/Objects.antt.
-- Context is the state of an action, the resource in memory and the cluster. Hashes, XML and key stores are
-- parameters too, and so are the calls of the disk by which an archive is unpacked.
--
-- Choices. A text is a list of its bytes, and letters are those of ASCII. A Go map is a table with its
-- order as the order of iteration (Table.antt). Go's int has 64 bits, and increment wraps.
-- reflect.DeepEqual is equality of the records (Controller/Deep.antt), and does not tell a nil slice from
-- an empty one. Of the sources of a variable the model has the four that the operator reads or writes. Log
-- lines are left out.
--
-- Fuel. Regex/Defs.antt runs a repetition on as much fuel as there are bytes left, and a turn that reads
-- nothing ends it; the tokenizer of Spring/Names.antt and the printing of numbers in
-- Controller/Updater/Decimal.antt have the length of the text and the number itself. The reading of the
-- certificates of a trust store has the length of each text and one more; where the decoding leaves less
-- after a block, that is enough. The wait for a route reads it 59 times at most, as the source does.
--
-- Not modelled: the command line (cmd/manager/main.go), logs, generated code and the clients of the API
-- server, which are calls of libraries; the coding of certificates, keys and archives; WaitForSignal and
-- FindAllDistinctStringSubmatch of pkg/util/util.go.
pub mod Prelude
pub mod Text
pub mod Envvar
pub mod Password
pub mod Util
pub mod Archive
pub mod Events
pub mod KeyStore
pub mod Regex
pub mod Result
pub mod Maven
pub mod Exec
pub mod Table
pub mod Vdbutil
pub mod Spring
pub mod Proxy
pub mod Vdb
pub mod Controller
pub mod Tests
