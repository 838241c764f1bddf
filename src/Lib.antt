-- ===== src/Lib.antt =====
-- A model of libseawolf: the containers, the memory pool and the wire format of the library, the
-- notifications and the shared variables of an application, the PID controller, and the message hub
-- that the applications talk to.
--
-- How the parts interact. An application packs a message (src/comm.c) into space that it reserves in
-- an allocation of the memory pool (src/mem_pool.c) and sends it to the hub. A request carries an
-- identifier, under which the receiving thread stores the response. The hub (src/hub) dispatches the
-- message by its first component: COMM connects a client, NOTIFY broadcasts a text to the clients
-- whose filters let it pass, VAR reads and writes variables, WATCH subscribes to them, LOG logs. An
-- application keeps the notifications that it receives in a queue (src/notify.c), which is a
-- growing array (src/list.c) under a lock (src/queue.c).
--
-- The files:
--   Base, Base/*        shared names, tests into Bool, lists over the native numbers, integers
--   ArrayList           src/list.c: List_* are the functions of the same name
--     /Shift            the two loops that move items
--     /Ops, /Search     the operations against the list of items; List_indexOf
--     /Sort             List_sort
--   Queue               src/queue.c; /Fifo: runs of calls of all threads against a list
--   Stack               src/stack.c; /Lifo: the stack against a list
--   MemPool             src/mem_pool.c; /Bits: the map of a block; /Chunks: the whole pool;
--                       /Reserve: the space inside an allocation
--   Comm/Message        src/comm.c: packing and unpacking; /Wire: round trip, lengths, faults
--   Comm/Requests       src/comm.c: request identifiers and responses; /Assign: the search ends
--   Comm/Receive        src/comm.c: the receiving thread; /Thread: its messages in their order
--   Comm/Authenticate   src/comm.c: the password; /Hub: the hub's answer to it
--   Dictionary          src/dictionary.c; /Chain: one bucket; /Place: all buckets and rehashing;
--                       /Map: the operations against a map from keys to values
--   Hub/State           src/hub/seawolf_hub.h: the state of the hub, and the C library it calls
--   Hub/Client          src/hub/client.c, and the sending in src/hub/netio.c and netloop.c;
--                       /Filters, /Broadcast: who gets a notification
--   Hub/Vars            src/hub/var.c: variables; /Subscribe: writes and subscriptions; /Counts:
--                       how often a client or a name is on a list; /Database: definitions and
--                       persistent values
--   Hub/Process         src/hub/process.c; /Preserve: what every request is put together from;
--                       /Access: who is connected; /ReadOnly, /Locked: variables; /Balance:
--                       subscriptions
--   Hub/Config          src/hub/config.c; /Options: the values after the reading of the file,
--                       against the documentation
--   Hub/Net             src/hub/netio.c and netloop.c: /Receive, /Thread: messages on a stream;
--                       /Removal: clients that come and go; /Reachable: the states of the hub
--   Notify              src/notify.c; /Delivery: the inbox; /Requests: what the hub makes of them
--   Var                 src/var.c; /Stale: subscriptions; /HubLink: an application next to the hub;
--                       /Cache: read-only variables; /Shared: a write as the others see it
--   Pid                 src/pid.c; /Buffer: the moving average
--   Util                src/util.c: Util_strip and Util_split; /Laws
--   Config              src/config.c; /Laws: reading of files
--   */Tests             concrete values
--
-- Correspondence. A struct is a record, a pointer a number with 0 for NULL, and a function returns
-- the changed state beside its result. A function that takes a lock from its first access to its
-- last one is one step; Dictionary_setData and its kin compute the bucket before they take their
-- lock, and are one step where no other call adds buckets in between. Where the C code would read out of bounds or wait for ever the model's
-- result is `none` (or a constructor that says so). A message lies in its allocation, which a
-- request for space moves once it does not fit its chunk of 512 bytes: the models of the packing,
-- the unpacking and the receiving say when the code goes on with pointers to the old place. Machine integers wrap as in C: the 16 bit
-- fields of messages and of allocations, the 32 bit hash and chunk map, the 64 bit sizes. Unwritten
-- memory holds an unknown word, the parameter `indet`. What the hub calls in the C library (atof,
-- atoi, %f, poll, send) is the record Libc, a parameter; so are sscanf (Scanf), the sizes of what
-- recv gives, for which clients their removal waits in vain (pthread_join and the in_use lock), and the arithmetic of float and double (Floats, Doubles). An application of src/var.c
-- is next to the hub through the record Link: what it asks and tells is processed at once.
--
-- Fuel. Loops over data are structural. The search for a request identifier, the draining of the
-- inbox, the reading of a file, the reading of a socket, the loop of a client's thread and the
-- removal of closed clients run on a number of rounds, and the recursion of List_sort on fuel,
-- which is shown to be enough.
--
-- Not modelled: the opening of sockets and files, the select loop, threads and their creation,
-- logging of the hub about itself, the releases of memory, serial devices and timers.
pub mod Base
pub mod ArrayList
pub mod Queue
pub mod Stack
pub mod MemPool
pub mod Comm
pub mod Dictionary
pub mod Hub
pub mod Notify
pub mod Util
pub mod Var
pub mod Pid
pub mod Config
