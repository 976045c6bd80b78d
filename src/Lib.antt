-- ===== src/Lib.antt =====
-- The Time Warp kernel of the simulator, by its source files under src/.
--
-- A Time Warp simulation runs its objects optimistically: each simulation manager hands out the
-- lowest unprocessed event that it knows, and takes processing back when an event or a negative event
-- arrives that should have come first. The parts that are modelled, with what they do for each other:
--
--   Event       src/Event.cpp, src/ObjectID.h, src/NegativeEvent.cpp and src/EventFunctors.h: events,
--               their identity (sender and number) and the order by which all event sets keep them.
--   Container   src/DefaultTimeWarpEventContainer.cpp: the queues of one simulation object, with
--               negative events that may arrive before their event, and with the sort that is put off
--               until an event is asked for. Container/History puts the methods together the way the
--               simulation manager calls them.
--   MultiSet    src/TimeWarpMultiSet.cpp: the other event set, with one sorted queue for each object
--               and a sorted index of the lowest events. Its iterators are positions.
--   Termination src/TokenPassingTerminationManager.cpp and src/TerminateToken.h: the managers find out
--               that the simulation has ended by a token that goes round. Termination/Ring has the
--               managers with the tokens in flight.
--   Gvt         src/MatternGVTManager.cpp, src/MatternObjectRecord.h, src/MatternGVTMessage.cpp and
--               src/GVTUpdateMessage.cpp: the managers estimate the global virtual time, before which
--               nothing can be taken back. Gvt/System has the managers with the events and messages in
--               flight.
--   State       src/StateManagerImplementationBase.cpp, src/PeriodicStateManager.cpp and
--               src/SetObject.h: the saved states of the objects of one manager. A rollback restores
--               one of them, and the global virtual time tells which may go.
--   Output      src/OutputEvents.cpp and src/AggressiveOutputManager.cpp: the events that an object has
--               sent, which a rollback takes back. Output/Lazy has src/LazyOutputManager.cpp, which
--               first holds them, for the object may send them again.
--   Object      src/TimeWarpSimulationManager.cpp, src/SimulationObject.cpp and
--               src/DefaultTimeWarpEventSet.cpp: one object over a container, its saved states and its
--               output. It executes events, and an event that comes too late takes it back: a state is
--               restored, the events after it are processed again up to the rollback's time without
--               sending anything, and the events that were sent since are handed out to be cancelled.
--   Remote      src/TimeWarpSimulationManager.cpp: the messages with the negative events that cancel what
--               an object of another manager has received.
--   Fossil      src/TimeWarpSimulationManager.cpp: the collection of fossils of all objects of a manager,
--               over State, Output and Container.
--   EventSet    src/EventSet.h: the abstract event set of the sequential simulation, with the laws that
--               its scheduler relies on.
--   Splay       src/SplayTree.cpp, src/SplayTree.h and src/TreeElement.h: the event set as a splay tree
--               with a cached pointer to its first element. Splay/Queue has the list that it stands for,
--               Splay/Erase the removal of an event, and Splay/Implements the laws of EventSet.
--   Stack       src/StackOfPtr.h: the stack of processed elements that the tree frees by cleanUp. It has
--               room for 1000 pointers, and when it grows most of them are lost, so Splay/Room keeps
--               count of the room that is left, and so do the laws of EventSet.
--   Sequential  src/SequentialSimulationManager.cpp and src/SimulationObject.cpp: the simulation without
--               Time Warp, over any event set with these laws.
--   Serial      src/SerializedInstance.cpp: the bytes of the messages between simulation managers.
--               Serial/Messages has what src/IntVTime.cpp, src/NegativeEvent.cpp and six kinds of
--               messages write, and Serial/Extract what they read.
--   Base        what the parts share: lists with positions, the sorted insertion of the C++ library
--               with its hint, permutations and updates of functions.
--
-- A class is a record with its fields, a method is a function of the same name in snake case from the
-- old record to the new one, with what it returns or sends. A virtual time is a natural number, which
-- stands for the totally ordered times that VTime promises; a pointer to an event is the event.
-- `none` stands for a failed assertion, an abort or a read through the end of a queue. The unsigned
-- counters wrap around at 2 ^ 32; the counts of messages of Gvt are integers. The loops run
-- over lists, and those of Object over as many turns as there are unprocessed events, since each turn
-- processes one; the theorems about them show that nothing is left to do. The loop of Sequential runs
-- on fuel, since as long as the application sends events it has no bound, and so does the process of
-- each of its objects; Sequential/Returns shows that enough fuel exists for an application that sends
-- to later times only. That of `clear` in Splay has one turn more than there are elements. A node of the
-- splay tree has the address of its element, and `splay` turns as often as its limit allows. The clocks of the scheduler,
-- the approximation of a time, and what the application does with an event are arguments.
--
-- The C++ library's `sort` and `multiset` are modelled by what their documentation promises: `sort` is
-- an insertion sort, used for events that are equal in the order only if they have one identity and
-- one receive time, and any sort in Output, where events can be equal in the order and differ;
-- `multiset::insert` puts an element behind its equals, and with a hint as close to
-- the hint as the order allows.
--
-- An `int` of Serial has four bytes, the lowest first, and instances lie in one another three deep,
-- which is the fuel that reading them takes.
--
-- Not modelled: reading the configuration, sockets and message transport, the printing of queues, the
-- choice of memory for events and states, the variants of the event sets for threads, the checkpoint
-- files of optimistic fossil collection, and the managers that adapt themselves. What an output manager
-- hands to `cancelEvents` of the simulation manager is a result, and so is what an object sends. An
-- object processes its events by the loop that src/SimulationObject.h documents for `executeProcess`;
-- the count of rollbacks and the file streams are left out. In Sequential
-- the counts of events on the edges between objects, the stop watches and the registration of the
-- objects but for their ids are left out.
pub mod Base
pub mod Event
pub mod Container
pub mod MultiSet
pub mod Termination
pub mod Fossil
pub mod Gvt
pub mod State
pub mod Output
pub mod Object
pub mod Remote
pub mod EventSet
pub mod Sequential
pub mod Serial
pub mod Splay
pub mod Stack
