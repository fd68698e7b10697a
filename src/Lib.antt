-- ===== src/Lib.antt =====
-- A verification library for the servers of LinuxWebsocket: the list of timers and the server
-- that closes silent clients, the chat server with one process for each client, the pool of
-- processes, the HTTP request parser, a web server for one file, the loop that reads signals like
-- connections, the lock classes, and small programs on mutexes, semaphores, fork, signals, messages
-- and descriptors. They share no code but the timers, which the server of silent clients uses.
--
-- Parts, by the path of the source:
-- - Timer/linklistTimer.h: Timer. A heap maps addresses to objects of util_timer (Timer/Heap); a
--   dereference of NULL or of a deleted timer is a fault. The functions have the names of the
--   methods of sort_timer_lst: add_timer (the private one is add_timer_from, its loop insert_loop),
--   adjust_timer, del_timer, tick, and destroy for the destructor. Timer/Chain says what list of
--   cells a heap stands for. The other files below Timer are about one operation each.
-- - Timer/closeNonactiveConn.cpp: Inactive, and Inactive/Main for main as a whole. Server holds
--   the globals and the variables of main's loop, with the timers' heap; cb_func and timer_handler
--   are the functions of these names, and on_connection, on_signals and on_data are the branches of
--   the loop. Inactive/View is the server as its clients see it: who is served, since when they are
--   silent, and what is said to them.
-- - Multiprocessing/multiprocessingChatServer.cpp: Chat for the parent, Chat/Child for run_child,
--   Chat/Main for main as a whole. Chat.Server holds the globals; on_connection, on_signals and
--   on_message are the branches of main's loop, reap is one round over waitpid. A child has the
--   shared memory as a function from offsets to bytes. Chat/Room puts the parent, the children, the
--   pipes between them and the shared memory together, with clients that join; a user leaves only
--   from the last slot, since any other exit moves a user to a slot that is not its child's. An index
--   that is sent into a full pipe is lost, and a client may be sent less than a whole message.
--   Chat/Room/Hall is what the clients see.
-- - ThreadPool/processPool.h: Pool. construct is the constructor, create and run_parent have
--   their names, search is the round robin. Pool/Child has setup_sig_pipe and run_child; the
--   template parameter T and its methods init and process are parameters of the definitions.
--   Pool/Run has run.
-- - IOfunction/httpparser9_3.cpp: Http. parse_line and parse_requestline have their names.
-- - IOfunction/webServer6_2.cpp: Web, and Web/Main for main as a whole. ok_header and error_header
--   are the snprintf calls of the two answers, and check_file is what sets valid and file_buf.
-- - Signal/unievent.cpp: Unievent. addfd, addsig and sig_handler have their names, set_up is main
--   from epoll_create to its loop, serve the loop, shut_down what follows, and Unievent/Main main as
--   a whole. A handler runs between two events. Unievent/Backlog adds the connections that wait at
--   the listening socket.
-- - Multithread/deadLockDemo.cpp, Multithread/multithreadForkDeadlock.cpp and
--   Multiprocessing/IPC_PRIVATE.cpp: Deadlock, AtFork and Semaphore. Each has a step function for
--   each thread or process, and Reach holds the states of all their interleavings.
-- - ThreadPool/processPool.h, its functions on descriptors and signals, which the two servers have
--   too: Epoll. The functions have their names, over what the kernel keeps for a process.
-- - Multithread/locker.h: Lock. Its functions are the constructors and destructors; Lock/Locker
--   and Lock/Cond are the calls of two of the classes as steps of many threads.
-- - Multiprocessing/msgQueueDemo.cpp: MessageQueue, with the steps of the child and the parent.
-- - IOfunction/sendFile6_3.cpp, IOfunction/spliceDemo6_4.c, Signal/sigUrgent.cpp and
--   Timer/socketTimeout.cpp: OneShot/SendFile, OneShot/Splice, OneShot/Urgent and OneShot/Connect,
--   each with a main. OneShot has what they share: the calls from socket to accept, and the log.
-- - Multithread/threadHandlesAllsigs.cpp: SigThread, with the steps of main, of sig_thread and of
--   signals.
-- Prelude passes on the names that all parts use; Prelude/Runs has runs of named steps.
--
-- The results of system calls, the time and new addresses are arguments of the handlers, and
-- calls that the rest of the system sees go to a log. File descriptors, process ids and times are
-- natural numbers; -1 is `none`. The arrays that a descriptor or a process id indexes are total
-- functions, which takes for granted that process ids stay below PROCESS_LIMIT and the pool's
-- descriptors below USER_PER_PROCESS; FD_LIMIT is tested where a descriptor comes in.
--
-- Fuel: the loops over timers follow pointers, so they run on fuel; one round for each timer and
-- a last one is enough on a well-formed list, which is why the results ask for a list shorter
-- than the fuel. The round robin of the pool gets one round for each process. All other loops are
-- over lists of events, signals and processes, and end.
--
-- A number printed with %ld gets 19 digits, enough for any off_t; the header buffer is searched
-- for its NUL up to BUFFER_SIZE.
--
-- Not modelled: the arguments of main and the addresses made from them; printing, but for the text
-- that a program shows as its result; the flags of descriptors and the handlers that addsig sets,
-- but for Unievent and Epoll; in Chat/Room, users that leave from another slot than the last;
-- Multiprocessing/passFD.cpp, whose control message is written outside its object; wait and post of
-- the class sem; and calls of the thread library that fail on objects that are not initialised. The
-- main of IOfunction/httpparser9_3.cpp does nothing with the parser.
pub mod Prelude
pub mod Timer
pub mod Chat
pub mod Pool
pub mod Http
pub mod Inactive
pub mod Lock
pub mod Epoll
pub mod SigThread
pub mod OneShot
pub mod MessageQueue
pub mod Deadlock
pub mod AtFork
pub mod Semaphore
pub mod Unievent
pub mod Web
