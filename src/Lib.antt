-- ===== src/Lib.antt =====
-- psroot gives a process a container of its own; its userland netstack carries the process's
-- socket calls to a daemon that performs them on the host, and its process shim hides the host's
-- processes. This library models these, the life cycle of a container, the environment and the command
-- lines of its processes, the resolver that plans its shell, published ports and leased addresses.
--
-- The parts, from the container outwards:
--
--   Client        the shim's client, netshim/src/client.rs: one request, then the fragments of
--                 its answer up to the last; Client/Methods are the Winsock-shaped calls, and
--                 Client/Loopback joins the client to the daemon.
--   Ring          the ring that each direction of the channel uses, netstack-ipc/src/ring.rs:
--                 Ring/Queue is its specification, Ring/Refine compares the two call by call, and
--                 Ring/Interleave has the memory accesses of both sides as steps.
--   Daemon        the service loop and the handler of each operation,
--                 netstack-host/src/daemon.rs. A request is turned into the list of its replies
--                 (Daemon/Handle: plan), which are then posted (post_all). Daemon/SockAddr is the
--                 layout of addresses in payloads.
--   Backend       the interface between daemon and backend, netstack-host/src/backend.rs.
--   NatBackend    the backend over the host's sockets, netstack-host/src/nat.rs; the methods that
--                 move data are in NatBackend/Transfer.
--   SocketTable   the table of logical sockets of the backend, netstack-host/src/socket_table.rs.
--   Channel       the two rings in one mapping, netstack-ipc/src/channel.rs: Channel/Layout is
--                 about where they lie, Channel/Duplex about the two directions; Channel/Signal is the futex word
--                 of netstack-ipc/src/signal.rs, Channel/Parking its use by both sides, step by
--                 step, and Channel/Wake what follows.
--   Proto         codes, headers and packed arguments, netstack-proto/src/lib.rs.
--
-- The container and its processes:
--
--   Container     the record, the calls of the system and the operations as functions that may
--                 fail, container/src/container.rs: Container/Start with Container/Links (bindlink)
--                 and Container/Publish (portmap), and Container/Life, which also has the
--                 revocation of grants of rootfs-stager/src/lib.rs. Container/Runs are sequences of
--                 operations, which Container/Started, Container/Sound, Container/Grants, Container/Revoked,
--                 Container/Released and Container/Ends are about.
--   Environment   the variables that a sandboxed process inherits, container/src/sandbox.rs:
--                 Environment/Sandbox has the functions, Environment/Hidden,
--                 Environment/Restore and Environment/Prepend what they come to. Lower case is
--                 that of ASCII.
--   Quote         quoted arguments, container/src/sandbox.rs and cli/src/main_windows.rs, and the
--                 reader of command lines that Windows documents.
--   Shell         the shell resolver, shell-resolver/src/: Shell/Version, Shell/Catalog,
--                 Shell/Substitute and Shell/Resolve are version.rs, catalog/mod.rs and resolve.rs.
--   Glob          the matchers of rootfs-stager/src/lib.rs and container/src/app_stage.rs, against
--                 one relation between patterns and texts (Glob/Star).
--   CommandLine   amounts, volumes and bind specifications, cli/src/main_windows.rs.
--   PortMap       publish specifications and the variables of ports, portmap/src/lib.rs.
--   Text          what these parts use of Rust's strings.
--
-- Beside the netstack:
--
--   ProcShim      which processes a container sees and may open, procshim/src/hooks.rs and state.rs:
--                 ProcShim/Tree and ProcShim/Closure are the set of allowed processes,
--                 ProcShim/Chain the list in the buffer, ProcShim/Visible what both hooks let through,
--                 ProcShim/Fuel and ProcShim/Opens the walk up.
--   NetShim       the socket handles that the network shim makes up, netshim/src/state.rs;
--                 NetShim/Hooks and NetShim/Names are its Winsock hooks, netshim/src/hooks.rs, which
--                 call the client; NetShim/Routing and NetShim/Given are about them.
--   Ipam          the leases of container addresses, unix/src/net/ipam.rs.
--
-- (Paths are below crates/psroot-.)
--
-- Correspondence. Functions keep their names; a handler that mutates self takes the state as its
-- last argument and returns it beside its result. u16, u32 and u64 are numbers, with the wrap of the
-- source written out where it wraps: the ring's counters modulo 2^64, the payload length and the
-- correlation modulo 2^32, an amount of memory modulo 2^64. A panic of the source is a result of its own (BResult.panic), or none
-- in the socket table.
--
-- Parameters. Host stands for the sockets of the operating system, Resolver for its name service;
-- Client.Channel and Daemon.Handle.Post stand for the channel at its two ends. Nothing is assumed of
-- them but what a theorem names: ReadsFit (a read fits its buffer) and HasFullPeers (a v6 address
-- is sixteen octets). Container.Os stands for the calls of Windows that a container makes, the creation
-- of jobs, silos and sandboxed processes among them: KeepsFile says that the record can be read
-- and that a failed write leaves it as it was, Revokes what icacls does, Releases that the calls which
-- end something do so. Shell.Resolve.Machine stands for the probe of the host and for
-- the embedded catalog.
--
-- Fuel. fragments runs on the length of what is left, and each round takes at least one byte.
-- Client.collect runs on the number of waits that fit the request's deadline; the ring of the answers has as many slots
-- as the loopback channel says, and a reply that finds it full ends the posting. The theorems on
-- calls ask for more waits, and for more slots, than there are messages.
--
-- The filter and the closure of ProcShim run on the number of entries of the list; close_over needs
-- one round more than there are entries. walk_up never goes on from a process twice,
-- so one round more than the listed processes ends it.
--
-- The loop of the matcher of patterns runs on the letters that it can still go back over, and its theorem
-- says that it answers; substitute_from runs on the length of the template, and show on the number.
--
-- Not modelled: the memory mappings themselves and the system's wait on an address, the injection of
-- the shims, the creation of jobs, silos, namespaces, desktops and sandboxed processes, the copying of
-- files by the stager and the threads of the port proxies, all of which are calls of the system.
-- Channel/Parking takes a wake of the system to reach the blocked side. Of the
-- command lines only the quoting and three parsers of values are modelled, of the stager the matcher and the revocation, of the Unix
-- crate the leases.
pub mod Prelude
pub mod Text
pub mod Glob
pub mod Quote
pub mod Environment
pub mod Shell
pub mod PortMap
pub mod Proto
pub mod Ring
pub mod Channel
pub mod SocketTable
pub mod Backend
pub mod Host
pub mod NatBackend
pub mod Daemon
pub mod Client
pub mod ProcShim
pub mod NetShim
pub mod Container
pub mod CommandLine
pub mod Ipam
pub mod Tests
