-- ===== src/Lib.antt =====
-- The MMO TCPFighter server of CppProject/22.10.10 - MMO TCPFighter Server: a select server on which
-- characters walk over a map of 6400 by 6400 points, cut into 32 by 32 sectors, and fight. Each
-- session has two ring buffers; a client's bytes arrive in one, are cut into packets and go to a
-- handler, which changes the session's character, keeps the sets of the sectors up to date, and sends
-- packets, made in a serialisation buffer of a pool, to everybody in the sectors around. A logic frame
-- moves all characters every 40 ms. Beside it stand smaller programs of the repository: a lock-free stack
-- over a lock-free pool, Peterson's algorithm, a spin lock and a hash table.
--
-- Files, and what they model (paths without a directory are below CppProject/22.10.10 - MMO TCPFighter
-- Server):
--   Common            numbers, lists, memory as a map from addresses to bytes, 32-bit words, and
--                     Outcome: a call returns, meets a bare `throw`, or does what C++ leaves undefined.
--   RingBuffer        RingBuffer.h and RingBuffer.cpp, every operation. Window and Pieces say which bytes a
--                     buffer holds, Bounds has its invariant, Fifo its operations against the list of
--                     these bytes, Run whole runs of calls against a queue.
--   ProtocolBuffer    ProtocolBuffer.h and ProtocolBuffer.cpp: Put for the writes, Get for the reads.
--   MakePacket        MakePacket.cpp; Layout describes the bytes of the packets.
--   Sector            SectorPos, Get_SectorAround and Get_ChangedSectorAround of Sector.cpp, with Around and
--                     Changed about what they list.
--   Character         Character.h, Character::Set and the moves in Update of Server.cpp; Movement bounds them.
--   World             the globals of Server.cpp, SendPacket_*, Insert_Sector, Erase_Sectors and
--                     Update_SectorPos. Lookup reads what was written, Frame has what sending may change,
--                     Packets the pool's buffer, Consistent the invariant, Sets and Resector
--                     Update_SectorPos. Distinct, Sessions, Rewritten and Queued are about sessionMap and
--                     disconnect_queue, Serving about both together.
--   Handler           SCPacket of Server.cpp, which Sends is about; Move has Proc_Packet_MOVE_START and
--                     Proc_Packet_MOVE_STOP, Attack the three attacks, which are one function of ranges and
--                     damage: Reach compares the sectors searched with the rectangle hit. Fields, Kept and
--                     Total follow a packet from its bytes to the world it leaves.
--   Update            Update of Server.cpp; Kept is about a frame, Ended about the sessions it ends.
--   Network           Complete_RecvPacket and Proc_Packet of Server.cpp; Framing is about how bytes are cut
--                     into packets. Send has ProcSend, Receive has ProcRecv: Dispatch and Cut follow one
--                     packet, Loop the loop over them, Failing is about packets that fail. The socket's send
--                     and recv are parameters.
--   Server            ProcAccept, Disconnect_Session, and Session.cpp. Admit and Accept follow a client that
--                     comes, Erase, Parting and Disconnect one that goes; Select has SelectSocket, Steps the
--                     calls of the main loop in main.cpp as a step relation, Ended what becomes of the dead.
--   ObjectPool        ObjectPool.h over a heap of nodes; Init is about the constructor, Kept about what
--                     the pool hands out.
--   LockFreeStack     LockFreeStack.h, ObjectPool.h and main.cpp of CppProject/22.12.03 - LockFreeStack. State
--                     and Access have Push and Pop, one access to shared memory at a time, System the threads;
--                     Top is about the words of the tops, Versioned about a list below such a word, which
--                     both the stack and its pool are, Places about where the nodes are. Turns, Placing and
--                     Sound follow one access, History has the calls and returns that are seen of a run,
--                     Refines compares an access with Spec, one stack for all threads, Runs has what holds
--                     of all runs, Client and Monitor the threads of main.cpp.
--   Peterson          the threads of CppProject/22.10.19 - 피터슨 알고리즘 버그 찾기 and of
--                     02 DontUseInterlocked.cpp of CppProject/22.10.12 - Spinlock on a machine with store
--                     buffers; Writes, Places and Moved lead to Exclusion.
--   Spinlock          01 UseInterlocked.cpp of CppProject/22.10.12 - Spinlock; Counting is about cnt.
--   HashTable         the hash table of CppProject/22.05.06 - 해시 테이블 구현; Find is about add and find.
--   Tests             in each of these: runs on concrete inputs.
--
-- The invariant, World.Consistent.IsConsistent: each character stands in the map, is in the set of the
-- sector of its position and in no other, and has a session; each id in a set is a character's; and the
-- pool's buffer is valid and holds 4000 bytes.
--
-- The server's invariant, Server.Accept.IsUp, adds: sessionMap has no socket and no id twice, all ring
-- buffers are valid, disconnect_queue holds exactly the sessions whose flag_disconnect is set, each
-- once, every session has its character, and no id in use is still to be handed out.
--
-- Numbers: an int, unsigned or DWORD is its 32-bit pattern, char, short and BYTE their patterns; the
-- comparisons are those that C++ makes, unsigned where one side is. A pointer into a buffer is an
-- address, one to a session or a character is the session id. Sets and maps are lists, in any order of
-- iteration. All loops are structural recursion but ProcRecv's over the packets, which runs on fuel:
-- each packet takes at least three of the at most 8191 bytes, so fuel of 2731 rounds is enough. A loop
-- that tries again until a compare-and-swap succeeds is a step of its thread for each access.
--
-- The lock-free stack and the spin lock run on sequentially consistent memory. The stack's theorems hold
-- while its counter and its pool's are below 2^17, since 17 bits of a number stand in a top.
--
-- Not modelled: StartUp, CleanUp and the way ProcessNetIO fills the tables of sockets that it hands to
-- SelectSocket, since they are calls of the socket library; the destructors, logging, the server's monitor,
-- and the remaining projects of the repository, which are separate programs.
pub mod Common
pub mod RingBuffer
pub mod ProtocolBuffer
pub mod MakePacket
pub mod Sector
pub mod Character
pub mod World
pub mod Handler
pub mod Update
pub mod Network
pub mod Server
pub mod ObjectPool
pub mod LockFreeStack
pub mod Peterson
pub mod Spinlock
pub mod HashTable
