-- ===== src/Lib.antt =====
-- datapath: inter-process communication over named pipes of Windows. A server makes the pipes of a
-- path and offers each connection to its listeners; a socket is one end of a connection, writes
-- messages as tasks and reads them in a thread of its own; both rest on overlapped operations,
-- which are objects that can be waited for; listeners are kept in events. A pool of worker threads
-- stands beside it.
--
-- The files, with the code that each models:
--
-- Base: names of the libraries, Boolean tests, lists and integers. No code of the program.
-- Error: the result codes of include/error.hpp.
-- Event: include/event.hpp, a list of listeners with two hooks. Event.Order: who is called and
--   when.
-- Waitable: include/waitable.hpp and source/windows/waitable.cpp. Waitable.Single is the wait for
--   one object, Waitable.Many the waits for all and for any of several (waitable::wait, wait_any).
--   Each follows the source's loop, over a list of the answers of the operating system. Timeouts,
--   Outcomes, Nulls, WaitAll and WaitAny prove what they do.
-- Utility: make_pipe_path of source/windows/utility.hpp. Utility.Paths: its bounds. Utility.Wide
--   is make_wide_string, with the converter of the standard library: Units, Bytes and Texts say
--   what it makes of text and which bytes it takes, Reader reads UTF-16 back, Names has the name
--   of a pipe in UTF-16.
-- Overlapped: source/windows/overlapped.hpp and overlapped.cpp, with the calls of the operating
--   system as a list. Overlapped.Handles: how often an event is closed.
-- OverlappedQueue: source/windows/overlapped-queue.hpp and overlapped-queue.cpp, a pool of
--   operations. Ownership: its invariant. Misuse: an object that is freed and was not in use.
-- Frame: the size in front of a message, as task.cpp writes it and socket.cpp reads it.
-- Task: include/itask.hpp, source/windows/task.hpp and task.cpp, a message that is being written.
-- Socket: include/isocket.hpp, source/windows/socket.hpp and socket.cpp: connect, close, write and
--   the watcher's start and end. Socket.Watcher is the loop of socket::_watcher, by rounds. Waits,
--   Traffic and Reads say what one round does, Coherence has the invariant of the loop, Delivery
--   the reading of messages, Silence the rounds that deliver nothing, Lifecycle and Writes the
--   calls.
-- Server: include/iserver.hpp, source/windows/server.hpp and server.cpp: create, close and host.
--   Server.Dialing, Server.Offers and Server.Watcher are the loop of server::_watcher, by rounds.
--   Backlog: what create makes. Handles and Reach: where each handle is kept. Stages, Bounded and
--   Turns: a round as a step of each handle, through the stages of an abstract machine. Limits:
--   how many handles there are. Capacity: how many sockets there ever are. Service: whom the
--   listeners are told of. Sound: the active sockets that a round has found. Gone: an active
--   socket that the program has dropped.
-- ThreadPool: include/threadpool.hpp and source/threadpool.cpp: the pool. ThreadPool.Runner is the
--   thread of a worker. Order and Drain: which tasks it executes. Stop: its destructor. Ends: the
--   destructor of the pool. Choice: which worker gets a task. Masks: the masks of workers and
--   tasks.
-- Permissions: include/permissions.hpp and bitmask.hpp.
-- Entry: source/windows/datapath.cpp, connect and host.
-- Samples: the programs under samples. Samples.LogTime is the time that both print, and
--   Samples.Log the line around it: Digits and Lines say how it is read back. Samples.Measurer is
--   the measurer of samples/benchmark/measurer.hpp and measurer.cpp: Order is its map, Bag the
--   multiset that the map stands for, Shares the percentiles. Samples.Echo is server::client of
--   both main.cpp, by the rounds of its watcher: Waits, Erasing, Rounds and Limit say what they
--   do, Replies what is sent back. Samples.Host is the server of both: Pipes says what its
--   constructor makes, Serves whom it serves. Samples.Ends has the destructors of both: Closing,
--   Life and Fatal. Samples.Bench is the client of samples/benchmark/main.cpp, by the steps of its
--   two threads: Traffic has the messages under way, Steps, Fairness and Turns its invariant,
--   Stall where it comes to rest, Stamps the time that it sends, Ends its destructor, Reports what
--   it prints. Samples.Trip is the way of a message there and back. Samples.Single is the client
--   of samples/single-process-ipc/main.cpp, by the rounds of its watcher; Prints has what it
--   prints and its listeners.
--
-- How the parts interact: a call of Event runs the listeners of a Waitable when a wait returns;
-- the watcher of a Socket waits for its Overlapped operations by Waitable.Single, and its
-- listeners change the state of the watcher and call the event on_message; a Task is built by
-- Socket.write from a new Overlapped; the watcher of a Server waits for its operations by
-- Waitable.Many, connects new Sockets to handles and closes those that are declined. The server of
-- the samples is a listener of a Server, and its client a listener of each Socket, which writes to
-- that Socket and waits for the Tasks by Waitable.Many; what it sends back is what the watcher of
-- the Socket has read.
--
-- The state. Numbers are natural numbers, with the wrap-around of a DWORD, of size_t and of
-- uint32_t written out. A byte is a number, and a string the list of its bytes. A handle is a
-- number, and INVALID_HANDLE_VALUE is `none`. Listeners act on a type W, the state of the program.
-- What the operating system answers is an argument: lists of answers, functions of a handle, or
-- the bytes that have arrived. A wait whose answers have run out has not returned, so that no fuel
-- is needed: the loops go by recursion on the answers, the rounds or the lists of the code. The
-- end of the process, faults and behaviour that the language does not define are results of their
-- own.
--
-- Not modelled: the security attributes, which are the same for every pipe. Assertions are taken
-- to be compiled, so that one that fails ends the process; what a build without them does then is
-- left out. The exception that make_wide_string throws at a path that is not UTF-8 is in
-- Utility.Wide; create and connect take the path in bytes and do not carry it. In the single
-- process, the listener of the end destroys the client from inside a call of that client's socket:
-- Samples.Ends gives this as undefined behaviour. The functions main of the samples only call the
-- constructors and the destructors that are here. Numbers of type double are a parameter, with
-- what IEEE 754 says of them as hypotheses. The locks are taken to do what they do: the blocks
-- under a lock are steps. Listeners that call back into the object that calls them, or change the
-- list that is being walked, are left out where the files say so.
pub mod Base
pub mod Error
pub mod Event
pub mod Waitable
pub mod Utility
pub mod Overlapped
pub mod OverlappedQueue
pub mod Frame
pub mod Task
pub mod Socket
pub mod Server
pub mod ThreadPool
pub mod Permissions
pub mod Entry
pub mod Samples
