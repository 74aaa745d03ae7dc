-- ===== src/Lib.antt =====
-- common-lib, a C++ library of communication, threading and container utilities: its parts with
-- logic of their own, translated from the sources under common/ and extension/.
--
-- How the parts interact. A client of the event broker sends frames (EventFrame) as messages of a
-- TCP stream (AsyncTcp); the broker (AsyncEventBroker) parses them and keeps a registry of which
-- session wants which topic. A thread pool (TaskExecutor) has a WorkQueue for each worker and takes
-- its size from next_pwr_of_2. EventPublisher and EventSubscriber use a TcpTransport, whose frames
-- the broker hands on. The handlers of asio run on IOContext, whose threads are those of a
-- TaskExecutor. A Timer runs on a Thread, as does an Application, and TimerManager shares the timers
-- with their users. KalmanFilter and the angles compute with Matrix.
-- The serial port, Socket and the CH341 stand alone.
--
-- Which file models which part (paths are from the root of the repository):
--   Utils/Misc               common/src/utils/Misc.cpp
--   Utils/Strings            common/src/utils/String.cpp
--   Communication/Frame      common/include/common/communication/EventFrame.hpp
--   Communication/Uart       common/src/communication/serial/Uart.cpp and its header: open, close,
--                            read, write and the destructor; Uart/Line has readline
--   Communication/Socket     common/src/communication/Socket.cpp: Server and Client
--   Communication/Event      common/include/common/communication/impl: EventPublisher and
--                            EventSubscriber, over Asio/Transport; Event/Delivery joins them with
--                            the streams and the broker
--   Container/SizedQueue     common/include/common/container/SizedQueue.hpp
--   Container/LockFreeWorkQueue
--                            common/include/common/container/LockFreeWorkQueue.hpp, called by one
--                            thread; LockFreeWorkQueue/Shared has its owner and its thieves at
--                            once, access by access
--   Container/WorkQueue      common/include/common/container/WorkQueue.hpp: each call under its lock
--   Threading/TaskExecutor   common/include/common/threading/TaskExecutor.hpp, with the waiting and
--                            waking of WorkQueue: workers, clients and stop, step by step
--   Threading/ActiveRunnable common/include/common/threading/Runnable.hpp: ActiveRunnable after run
--   Threading/Runnable       common/include/common/threading/Runnable.hpp: Runnable, its thread
--   Threading/Thread         common/src/threading/Thread.cpp: ThreadDetail, its owner and its threads
--   Threading/Timer          common/src/threading/Timer.cpp: TimerDetail, its thread, start and
--                            stop
--   Threading/Manager        common/src/threading/Timer.cpp: TimerManager, Timer::async, and which
--                            thread destroys a timer
--   Singleton                common/src/Singleton.cpp: SingletonRegistry, by any number of threads;
--                            Singleton/Lazy has LazySingleton of the build that is not Windows
--   Observer                 common/include/common/Observer.hpp: Subject
--   Lifecycle/Resource       common/src/lifecycle/Resource.cpp and its header
--   Math/Matrix              extension/math/include/common/extension/math/matrix.hpp: Matrix, its
--                            operators, determine, cofactor and inverse; Math/Result how calls end
--   Math/Kalman              extension/math/include/common/extension/math/filter/KalmanFilter.hpp:
--                            the filter of matrices, over Math/Matrix
--   Math/Filter              extension/math/include/common/extension/math/filter: LowPassFilter, and
--                            KalmanFilter of a scalar
--   Math/Angle               extension/math/src/angle.cpp: Euler and Quaternion
--   Lifecycle/Application    common/src/lifecycle/Application.cpp: run, signals, names
--   Asio/Context             common/include/common/asio/IOContext.hpp: run and stop, over the steps
--                            of Threading/TaskExecutor
--   Asio/Udp                 common/src/asio/AsyncUdp.cpp: the socket, its receive loop, the network
--   Asio/Listener            common/src/asio/AsyncTcp.cpp: the accept loop of a listener
--   Asio/Connect             common/src/asio/AsyncTcp.cpp: connect and disconnect of a socket
--   Asio/Tcp                 common/src/asio/AsyncTcp.cpp: send and receive of a socket
--   Asio/Registry            common/src/asio/AsyncEventBroker.cpp: TopicRegistry
--   Asio/Broker              common/src/asio/AsyncEventBroker.cpp: ClientSession, AsyncEventBroker
--   Asio/Server              common/src/asio/AsyncEventBroker.cpp: run and stop, over Asio/Listener
--   Asio/Transport           common/src/asio/AsyncEventTransport.cpp: TcpTransport
--   Ch341/I2c                extension/ch341/src/CH341.cpp: I2C
--   Common                   shared comparisons, lists and bit arithmetic
-- Laws and the modules beside it hold the proofs, Tests the runs at concrete inputs.
--
-- Functions keep their names in snake_case: nextPowerOf2 is next_power_of_2, TopicRegistry::route
-- is route. A member function takes the state of its object and returns the state afterwards; what
-- it calls outside the library is part of its result, in order.
--
-- Numbers. Bytes are numbers below 256; size_t and uint32_t are numbers whose wrap-around is
-- written out by `% 2 ^ 64` and `% 2 ^ 32`. The counters of LockFreeWorkQueue never come down, so
-- its refinement is stated for fewer than 2 ^ 59 calls, or 2 ^ 60 accesses, on a capacity up to
-- 2 ^ 60, before any of them can wrap.
--
-- Matrices. The scalars and their operators are the parameter Scalar, of which nothing is
-- assumed but where a theorem says so; dimensions are not negative, and MATH_EXCEPTION_ENABLE is
-- defined. An element that nothing wrote holds the parameter junk, and an access out of bounds ends
-- in undefined, as does the assignment operator, which has no return. Initializer lists, moves and
-- printing are left out.
--
-- Fuel. Only receive of Asio/Tcp has fuel: a round takes four bytes at least, and its theorems ask
-- for more fuel than there are bytes. All other loops are structural.
--
-- Not modelled. asio, the system calls, the serial driver and the library of the CH341 are the
-- environment: what they answer is an argument, or a step that can be taken at any time. In
-- TaskExecutor a task is a number, and its future is left out; a load takes its index and pushes in
-- one step, and one thread calls stop. Runnable and ActiveRunnable leave out
-- promises, names and priorities.
-- LockFreeWorkQueue does not compile as it stands, for its atomic shared pointer is of C++20 and push
-- makes a unique pointer a shared one without a move; both are taken as repaired. Its accesses are
-- taken to be sequentially consistent. A Thread has one owner. A stream of AsyncTcp holds whole
-- messages, as where a user waits for the end of one before the next. In Asio/Transport the accesses
-- of the strand and of the handler of a connection are steps, and a call of the user is one step.
-- In Threading/Timer a Timer is not async; in Threading/Manager its loop is one stage, and a thread
-- of the user that waits in a destructor is not followed. TcpTransport is built without strict mode,
-- as are Thread and IOContext. One thread calls IOContext. The handlers that a user gives to a UDP
-- socket or a listener do not call it back, and sending by UDP is left out. Of Application the
-- system call that finds its path and the audit at its end are left out. What the formulas on angles
-- and the filters of scalars compute is shown for exact arithmetic, of which IsRing of Math/Ring has
-- the laws. Logging, the Windows branches but for the CH341 and Singleton, the Python bindings and
-- the tests are left out, as are the parts that no file above names.
pub mod Common
pub mod Utils
pub mod Communication
pub mod Container
pub mod Asio
pub mod Threading
pub mod Observer
pub mod Lifecycle
pub mod Singleton
pub mod Math
pub mod Ch341
