-- ===== src/Lib.antt =====
-- ukfaas: an OpenFaaS provider that runs functions as unikernels. This library models its Go code.
--
-- The provider keeps two stores. The function store (pkg/store/function.go) records what has been
-- deployed, with the package that an image gave; the machine store (pkg/store/machine.go) records
-- the virtual machines that run, with their network interfaces, and registers their addresses with a
-- network controller (pkg/api/network/controller.go), of which pkg/network/internal is one. The HTTP
-- handlers and the proxy's resolver (pkg/provider/handlers) call the three. The log requester
-- (pkg/logs) reads the journal for them. The commands (cmd) install the program, start its services,
-- and start the provider with its stores.
--
-- The files, by the code that they model:
--   Prelude            shared names: Text for Go's strings, Map for its maps and sync.Maps, and Exec
--                      for a call on a state, with its outcome: a value with a nil error, an error, a
--                      panic, or a wait for a lock that nobody releases. The state left behind is kept
--                      on every outcome. Frame and Ensures carry what a call keeps and what it returns.
--                      Integer has int64, strconv.ParseInt in base 10 and the %d of fmt.
--   Network/Balancer   pkg/network/internal/random.go and loadbalancer.go
--   Network/Controller pkg/network/internal/controller.go and controller_options.go: AddServiceIP,
--                      DeleteServiceIP, DeleteService, ResolveServiceEndpoint, AvailableIPs and
--                      RunHealthChecks are the functions of those names in snake case
--   Network/Api        pkg/api/network/controller.go, the interface, and both controllers as one
--   Network/Directory  what the interface promises: for each service a bag of addresses, the quotient
--                      of lists by the order of their items, which both controllers refine
--   Network/Manager    pkg/network/manager.go: the registry of controllers
--   Network/Caddy      pkg/network/caddy: the other controller, with the names of its paths
--   Functions          pkg/store/function.go and utils.go; Opening has NewFunctionStore, Add has
--                      AddFunction, and Update has UpdateFunction
--   Machines           pkg/store/machine.go: Platform has the data that is handed to kraftkit, Create
--                      has createMachine, Launch NewMachine and CloneMachine, Remove has DeleteMachine and
--                      destroyMachine, Scale has ScaleMachinesTo, StopAllMachines and the health checks,
--                      and Running any sequence of their calls
--   Handlers           pkg/provider/handlers: Namespaces has utils.go and namespaces.go, Requests the
--                      handlers that change a store, from the decoded body to what they write, and
--                      Answers those that only read, and the resolver; Deployment is Deploy of deploy.go,
--                      with the goroutine that watches its machine
--   Logs               pkg/logs/requester.go: buildCmd, parseEntry, streamLogs and Query
--   Command            cmd: root.go and main.go; Disk has the calls of package os, Install install.go with
--                      the password files of up.go, Up the rest of up.go, and Provider the start of
--                      provider.go
--   Tests              runs at concrete inputs
-- The other modules below one of these are its proofs.
--
-- State and errors. A sync.Map is an association list in the order in which a range visits it; its
-- keys are distinct where a theorem says so. A label or annotation map, which Go shares by
-- reference, is an address into a heap that the machine store carries. A uint64 wraps at 2 ^ 64, and
-- an int that is too large is negative, as written out in Network/Balancer. Numbers of replicas and
-- lengths of lists are not bounded.
--
-- Parameters. What the code calls outside this repository is a parameter: Env (GET, random numbers,
-- url.Parse, the context), Registry (containerd, kraftkit's packages, clock), Host (kraftkit's
-- machines and networks, netlink, directories), Gateway (the Caddy server), Kraft (what only Deploy
-- calls), Labeller, Files, Journal and Reader (journalctl, the clock, the receiver of a stream),
-- System (systemd, refusals of package os), Faasd (compose files and supervisor) and Surroundings.
-- Theorems on stopping machines assume of the host only that Stop returns nil or the machine it was
-- given, no longer running (StopsMachines); that on the messages of a query assumes that journalctl,
-- asked for one identifier, prints only entries of it (Filters).
--
-- Bounds. The loop of ResolveServiceEndpoint is recursion on the tries that are left, the larger of
-- 5 and the size of the balancer, as in the source; %d prints with the number itself as fuel, which
-- is more than its digits (decimal-Numeral); every other loop is recursion on a list or a count. The
-- endless loops of RunHealthChecks are modelled by the rounds that they do until the context ends.
--
-- Concurrency. The two locks of the machine store, that of createMachine and healthChecklock, which
-- ScaleMachinesTo and each visit of the health checks take, are flags, and a call that finds one
-- taken is blocked; a call that waits for ever keeps the locks it holds. The goroutines of
-- ScaleMachinesTo and of the update handler run one after another, in the order in which they are
-- started; Machines/Scale/Goroutines has those that scale down once more, with a schedule that
-- orders the steps of looking for a machine, marking it and destroying it in any way, and
-- Machines/Create/Callers has calls of CloneMachine, as those that scale up make them, and of
-- createMachine, with a schedule of their steps before, at, under and behind the lock; a call that
-- panics there ends alone, since net/http recovers the panic of a handler. A poller of a new machine
-- is a step of its own, watchdog_answers.
--
-- Simplifications. Get refreshes the machine it is given in place, which the model leaves as it was.
-- The goroutine of runUp that waits for a signal starts before the ports are allocated; in the model
-- a signal comes after that.
--
-- Not modelled: the wiring of cobra's commands and of the table of handlers, and test.go, a manual
-- trial; info.go, a constant reply; log lines; vendored code.
pub mod Prelude
pub mod Network
pub mod Functions
pub mod Machines
pub mod Handlers
pub mod Logs
pub mod Command
pub mod Tests
