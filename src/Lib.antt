-- ===== src/Lib.antt =====
-- A verification library for the SOCKS5 server in hev-socks5-server/jni/src: its core library in
-- core/src, with the red-black tree, the addresses, the users and the protocol; the session
-- class; and the program around them, with its settings, its workers and the proxy that starts
-- and stops them. The paths below are relative to hev-socks5-server/jni/src.
--
-- How the parts interact. hev-config.c reads the settings from a document. The proxy makes a
-- worker for each thread, with a listening socket from the socket factory, loads the users into
-- an authenticator and hands it to the workers. A worker accepts connections, keeps a list of its
-- sessions, and takes requests to stop or to reload from other threads. It hands each accepted
-- descriptor to a session, which is a server object of core/src/hev-socks5-server.c. The server
-- authenticates its client against an authenticator, which keeps the users in a red-black tree
-- keyed by name, reads a request with an address, resolves it, opens sockets for it, answers, and
-- splices the data. Waiting for the network is done by the task library, which asks the yielder
-- whether to go on; a session is terminated by setting its timeout to 0.
--
-- The files and the code that they model:
--
-- Base and its children: numbers, lists, bytes and tests that the others share; Base/Int has the
--   sign of a C int.
-- Addr: the addresses of core/src/hev-socks5-misc.c as their memory image; Addr/Resolve:
--   resolving names; Addr/Codec, Addr/Names and Addr/Resolve/Shape: laws.
-- Rbtree: insertion of core/src/hev-rbtree.c, as a focus in a tree with the chain of its parents;
--   Rbtree/Erase: removal; the Order and Balance modules: laws. A read through a null pointer is
--   none.
-- User: core/src/hev-socks5-user.c and hev-socks5-user-mark.c.
-- Authenticator: core/src/hev-socks5-authenticator.c; its children: laws, by sorted lists of
--   users.
-- Net: the system and the task library as an oracle. A call adds an event to a log, and the
--   oracle answers from the log. Net/Steps and Net/Triples: rules for relations and for pre- and
--   postconditions of code.
-- Socks5: core/src/hev-socks5.c, hev-socks5-tcp.c and the sockets and the yielder of
--   hev-socks5-misc.c.
-- Server: core/src/hev-socks5-server.c, with Server/Request, Server/Relay and Server/Run;
--   Server/Closed: relations between the states before and after each function;
--   Server/Terminated, Server/Authorized, Server/Descriptors and Server/Ready: laws.
-- Client: core/src/hev-socks5-client.c, with Client/Connect; Client/Kinds:
--   hev-socks5-client-tcp.c and hev-socks5-client-udp.c; Client/Wire, Client/Granted and
--   Client/Exchange: laws, the last one with either side as the system of the other.
-- Session: hev-socks5-session.c and the two functions of misc/hev-misc.c on addresses;
--   Session/Laws, Session/Mark, Session/Whole and Session/Ends: laws.
-- Udp: core/src/hev-socks5-udp.c, with Udp/Stream for messages in a stream, Udp/Datagrams for
--   messages in datagrams, and Udp/Splicer for the forwarding; Udp/Laws, Udp/Frames,
--   Udp/Unwrapped, Udp/Truncated and Udp/Progress: laws.
-- HevList: misc/hev-list.c and misc/hev-list.h on a memory of nodes; HevList/Linked,
--   HevList/Refines and HevList/Sequences: laws.
-- Worker: the threads of hev-socks5-worker.c that ask a worker to stop or to reload, and its
--   event task, in atomic steps that a schedule chooses; Worker/Sessions: the task that accepts
--   connections; Worker/Requests, Worker/Reload, Worker/Handed, Worker/Owners and
--   Worker/Sessions/Accounts: laws.
-- Config: the settings of hev-config.c; Config/Text: the functions of the C library on text that
--   it uses; Config/Scalars, Config/MainSection, Config/MiscSection and Config/Parse: reading a
--   document that the YAML library has parsed; Config/Getters: what the other parts ask for; the
--   children of Config/Laws: laws.
-- Proxy: the loading of users of hev-socks5-proxy.c, over the files and the allocations as
--   arguments; Proxy/Threads: its start, its end and the requests to stop, in atomic steps that a
--   list of turns chooses; Proxy/Users, Proxy/Loads and Proxy/Threads/Stops: laws.
-- SocketFactory: hev-socket-factory.c, and the loop of hev-socks5-proxy.c that asks it for
--   sockets; SocketFactory/Accounts: laws.
-- The Examples modules hold concrete inputs.
--
-- Bounds and fuel. Bytes are native numbers, and a narrowing store is written as a remainder.
-- Three loops run on fuel. The one over the nodes of a list is given as many rounds as nodes were
-- ever made. The one of hev_socks5_authenticator_clear is given a round for each user and one
-- more: each round erases one user, and the last one finds the tree empty. The one of
-- hev_socks5_udp_splicer goes on for as long as data comes in; its fuel is arbitrary, and its
-- result says whether it has ended. The loops of the tree go down a tree or up a chain of
-- parents. Receiving with MSG_WAITALL is one call of the oracle.
--
-- What is not modelled. The task library, the YAML parser and the C library are not this
-- repository's code; what is used of the first two is a field of the oracle or of the resolver,
-- or an argument such as a parsed document, about which nothing is assumed but what a theorem
-- states. Of the C library, the system calls and the allocations are so too, and the functions on
-- text and blocks of bytes are written out. Logging has no effect on the state. Reference counts
-- are left out, but for those of an authenticator. Of the start of the proxy, the error paths
-- before the first worker are left out. The entry points are not modelled. Of a worker, the error
-- paths of its construction and the tasks and descriptors that its destructor gives back are left
-- out. The threads of a worker interleave at their atomic operations, where setting an
-- authenticator is one of them: of several threads that set one for a worker, each is done before
-- the next begins; weaker memory orders are not modelled. The mobile application around the
-- server is not modelled.
pub mod Base
pub mod Addr
pub mod Rbtree
pub mod Net
pub mod User
pub mod Authenticator
pub mod Socks5
pub mod Server
pub mod Client
pub mod Session
pub mod Udp
pub mod Worker
pub mod HevList
pub mod Config
pub mod SocketFactory
pub mod Proxy
