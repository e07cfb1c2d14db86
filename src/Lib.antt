-- ===== src/Lib.antt =====
-- What the web client of this repository computes: forms, parsers and converters of app/docker,
-- app/kubernetes and app/portainer, with the state that a page keeps. The client is AngularJS
-- code in JavaScript; the helpers, converters and services below hold its own logic, and views
-- and REST wrappers around them pass their data on.
--
-- Parts and their files:
--   * Docker/Ports: `parsePort`, `parsePortRange` and `createPortRange` of
--     app/docker/helpers/containerHelper.js. Docker/Ports/Bindings is `preparePortBindings`, from the
--     rows of a form to the bindings that the Docker API takes, an error being a result; its child
--     modules Laws, Ranges and Bounds hold its theorems. Docker/Ports/Combining is
--     `sortAndCombinePorts`, the way back, with the loop's variables as a record Progress.
--   * Docker/Durations and Docker/KeyValues: durations, placement constraints and preferences, host
--     entries, labels and log driver options of app/docker/helpers/serviceHelper.js and
--     labelHelper.js.
--   * Docker/Logs: `formatLogs` of app/docker/helpers/logHelper.js, with the two searches that remove
--     the headers of a multiplexed stream and the escape codes written out, and the texts, lines and
--     spans that the loop keeps as a record Progress. Its child module Codes describes texts with
--     escape codes.
--   * Docker/Containers: the form of
--     app/docker/views/containers/create/createContainerController.js in both directions.
--     Docker/Containers/Options has the simple fields, Mounts the volumes, Resources the memory and
--     Networks the networks and hosts; Capabilities is also app/docker/models/containerCapabilities.js.
--     Docker/Containers/Duplicate loads the form from a container and prepares what is sent.
--   * Docker/Constraints: the nodes that a service may run on, in
--     app/docker/helpers/constraintsHelper.js.
--   * Portainer/Datatable: selecting rows in
--     app/portainer/components/datatables/genericDatatableController.js. The table is a record, a
--     user's actions are a step relation.
--   * Portainer/Storage: the items of app/portainer/services/localStorage.js over a record of the
--     browser's storage and its laws; Portainer/Storage/Replay compares it with a map. It has three
--     clients: Portainer/EndpointProvider is app/portainer/services/endpointProvider.js, whose session
--     is the variable in memory and the storage; Portainer/StateManager is
--     app/portainer/services/stateManager.js, the state of the application and of the user
--     interface; Portainer/Authentication is app/portainer/services/authentication.js over the others,
--     with the filters of tables of app/portainer/services/datatableService.js.
--   * Portainer/ResourceControl and Portainer/EnvFile: app/portainer/helpers/resourceControlHelper.js
--     with app/portainer/models/resourceControl, and app/portainer/helpers/env-vars.js.
--   * Kubernetes/Labels, FormValidation and Stacks: three helpers of app/kubernetes/helpers.
--   * Kubernetes/Applications: environment variables, placements, published ports, configurations
--     and persisted folders of app/kubernetes/helpers/application/index.js, with the volumes of
--     app/kubernetes/converters/application.js and the claims of persistentVolumeClaim.js beside it.
--     Published ports are those that Kubernetes/Ingresses adds to the ingresses of
--     app/kubernetes/ingress/converter.js; Kubernetes/Ingresses/Payload is what is sent of them.
--     Kubernetes/Applications/PortForm is how the form of
--     app/kubernetes/views/applications/create/createApplicationController.js changes and checks
--     published ports; its child module Editing has the operations, Changes those of a user and of
--     the choice of a resource pool as a relation.
--   * Kubernetes/Nodes and Pods: app/kubernetes/node/converter.js and app/kubernetes/pod/converter.js.
--   * Prelude: lists, texts, dictionaries and decimal numbers that the parts share. Tests: the
--     theorems at concrete inputs.
--
-- Conventions. A text that the program walks is a list of UTF-16 code units (Text); one that it only
-- compares is a String. A JavaScript object used as a dictionary is a list of its keys and values in
-- insertion order. undefined, null and a call that throws are none, except where the code tells them
-- apart (Slot in EndpointProvider). Numbers are natural numbers without bound: ports and counters
-- stay far below the integers that JavaScript represents exactly, and durations are taken to. Loops
-- are recursions over their lists or over the number of rounds that are left. The two searches of
-- Logs run on fuel, one round for each unit of the text and one more; a round leaves at least one unit
-- behind, so a search never runs out of rounds.
--
-- Parameters: the browser's storage (BrowserStorage, with the laws of a store), the truth of a stored
-- value, Moment's conversion of durations (Moment), the tokenizer of ANSI sequences and the colours of
-- x256, the splitting of command lines, the decoding of tokens, the clock and the answers of requests.
-- UUIDs, and the names that hold them, are functions of how many were made. The identity of a row and
-- the method that allows its selection are numbers and a function.
--
-- Not modelled: the server in Go, views, REST wrappers and modal dialogs; quotas, CPU limits and
-- sliders, which are fractions that are rounded in binary; the image and the registry of the form of
-- containers; the snapshot that stateManager.js takes of an endpoint; the other helpers and services
-- of app/docker, app/kubernetes and app/portainer.
pub mod Prelude
pub mod Docker
pub mod Portainer
pub mod Kubernetes
pub mod Tests
