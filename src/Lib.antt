-- ===== src/Lib.antt =====
-- Verification library of the NICo machine API provider.
--
-- The program is an OpenShift Machine API provider. A reconciler takes a Machine object from the
-- cluster and calls the actuator's Exists, Create, Update and Delete, which ask the NICo API for
-- instances and write the object's provider status, provider ID, labels and conditions. A webhook
-- validates the provider spec before an object is stored. A second controller polls NICo and writes
-- a BareMetalHost and its firmware components for every machine. The manager sets up the reconciler
-- and the webhook.
--
-- Files, and the code that each models:
-- - Api.Types: pkg/apis/nicoprovider/v1beta1/types.go.
-- - Api.Errors, Api.Sdk: Go errors and ClassifiedError; the types of the NICo SDK, as far as the
--   program reads or writes them.
-- - ProviderId: pkg/providerid/providerid.go. RoundTrip and Accepted hold its theorems.
-- - Webhook: pkg/apis/nicoprovider/v1beta1/webhook.go. Fields and Admission hold its theorems.
-- - Actuator.World: the environment and the state of the actuator. Monad and Calls are its
--   operations; Effects, Counts and Growth are the lemmas by which the theorems count effects, and
--   Memory those on operations that leave the object in memory.
-- - Actuator.Request, Alerts, Conditions, Topology, Provider, Health, PreFlight, Monitor, Progress,
--   Create, Update, Exists, Delete: pkg/actuators/machine/actuator.go, by function. Under each,
--   Effects says what kinds of effects it has, Memory that it leaves the object in memory, and Laws,
--   or Checked for Create, holds theorems. Topology.Wanted has the list of labels that Topology.Laws
--   compares with, and PreFlight.Escalation the blocks in a row that make a Machine fail.
--   Conditions.Stamps and Monitor.Stamps follow the time from which an instance is provisioned to
--   Progress.Timeout. Provider.Stored follows the status that an object holds through its writes,
--   with what it relies on of encoding/json and of the API server, and Stored.Reads to a later read;
--   Update.Tracked says what the steps of an update make of it, with Progress.Ready for the
--   condition InstanceReady, and Update.Followed what it is after an update; Create.Stored,
--   Update.Evolves, Exists.Created and Delete.Created are what comes of it after a creation.
--   World.Results, Monitor.Results and Progress.Results say what operations return.
--   Provider.Credentials says where the client of getNicoClient comes from.
-- - Actuator.ApiClient, Actuator.Client: the SDK's client as a parameter, and nicoClient over it, of
--   pkg/actuators/machine/actuator.go. Client.Wire describes the requests that reach a server, and
--   Client.Credentials puts it together with the secret.
-- - Reconciler: pkg/controllers/machine/controller.go. Laws, Guards, Finalizers, Errors,
--   Progress, Once and Leaks hold its theorems.
-- - BareMetal.Types, BareMetal.Mapper: pkg/controllers/baremetalhost/mapper.go, with the types of the
--   NICo SDK and of Metal3 that it reads and writes. Mapper.Laws holds its theorems.
-- - BareMetal.Cluster, BareMetal.Sync: pkg/controllers/baremetalhost/controller.go. Cluster is what
--   it runs in; Cluster.Frames and Sync.Effects carry a relation of states through the operations;
--   Sync.Maps, Cache, Starts and Converges hold theorems; Store has the laws of an API server that
--   stores hosts and firmware components, which Firmware, Machines and Converges take.
-- - Manager: cmd/manager/main.go. Laws holds its theorem.
-- - Base: shared notation, and the helpers on texts, numbers, lists and maps.
-- - Examples: concrete clusters, a NICo API and a UUID library, and the theorems applied to them.
--
-- State: `World` is the machine object in memory, which Create, Update and Delete change through a
-- pointer, and the history of effects, newest first. An operation is a function of the state that
-- gives a value, an error or a panic, and the new state. What was done before an error stays done.
-- The servers, encoding/json, the UUID library, meta.SetStatusCondition and the clock are fields of
-- `Env`; a server's answer may depend on everything that was done before, so that a theorem for all
-- environments covers every interleaving with other clients of the servers. The controller of the
-- hosts has a state of its own, the SKU cache and an outside world of an open type: a call gives its
-- result and the world after it, and between two syncs the world moves as it likes.
--
-- Numbers: the attempt count is a 64-bit `int` with its wrap, and so are the sizes of memory and
-- disks (Base.Int64); lengths, times and status codes are natural numbers. Every loop is a structural
-- recursion over a list or a text, and the endless loop of Start is one over the list of what wakes
-- it; there is no fuel.
--
-- Not modelled: the registration of types and metrics, which is all in calls of libraries, the
-- parsing of flags, logging other than that of a sync, the mutex of the SKU cache, which has one
-- caller, and measured durations.
pub mod Base
pub mod Api
pub mod ProviderId
pub mod Webhook
pub mod Actuator
pub mod Reconciler
pub mod BareMetal
pub mod Manager
pub mod Examples
