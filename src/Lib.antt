-- ===== src/Lib.antt =====
-- A model of the YAZ++ toolkit: Z39.50 clients and servers over YAZ.
--
-- A program creates a socket manager (src/yaz-socket-manager.cpp), which polls descriptors and
-- notifies the observers of events. A PDU association (src/yaz-pdu-assoc.cpp) is such an observer:
-- it makes, accepts and closes connections, reads packages and hands them to its own observer, and
-- writes those that it is given. A Z association (src/yaz-z-assoc.cpp) encodes and decodes APDUs
-- over it; a server (src/yaz-z-server.cpp) hands each request to its facilities, of which
-- src/yaz-z-server-sr.cpp answers searches. The rest are tools for such programs.
--
-- Files, and what they are about:
--   TimeStat        src/timestat.cpp. The class's state is a record. Ring has the ring of buckets,
--                   History what it holds of the past, Window and Again the totals.
--   LimitConnect    src/limit-connect.cpp, on TimeStat. Peers has the list, Totals the counts.
--   GduQueue        src/gduqueue.cpp. Fifo compares it with a list.
--   Mask            include/yazpp/socket-observer.h, the event bits.
--   SocketManager   src/yaz-socket-manager.cpp. Registry has the entries and the queue, Turn is
--                   `processEvent`; Safety and Loop have the invariant, Polling the poll.
--   PduAssoc        src/yaz-pdu-assoc.cpp. State has the fields and `shutdown`, Output the queue of
--                   packages, Setup connections, Notify `socketNotify`. Safety, Opening and Events
--                   have the invariant, Sending and Stream
--                   the order of packages, Waiting and Backlog the packages that wait, Closing what
--                   is closed.
--   Retrieval       src/yaz-z-server-sr.cpp. Packing compares `pack_records` with a shorter
--                   definition; Piggyback has the records that come with a search response, and
--                   Requests the handlers of requests.
--   RecordCache     src/yaz-z-cache.cpp. Lookup relates `lookup` and `add`.
--   Apdu            src/yaz-z-assoc.cpp, the places of an APDU by its kind. Reference is about them.
--   ZAssoc          src/yaz-z-assoc.cpp, GDUs over a PDU association. Delivery relates what is sent
--                   to what is decoded, and has the association's events.
--   Server          src/yaz-z-server.cpp. Dispatch is about who handles a request, Utility makes
--                   records and diagnostics.
--   ExtendedServices src/yaz-z-server-ill.cpp and src/yaz-z-server-update.cpp, on Server. Replies
--                   has a server with both facilities.
--   IrAssoc         src/yaz-ir-assoc.cpp, what a client session keeps. Names is about the names of
--                   the databases, Requests has what it sends and receives, Carried the package of
--                   a search.
--   ZDatabases      src/yaz-z-databases.cpp. Match has its two tests.
--   ZQuery          src/yaz-z-query.cpp. Reading is about what is read from a query and when two
--                   match, Printing about `print`.
--   GduCopy         src/gdu.cpp.
--   PduAssocThread  src/yaz-pdu-assoc-thread.cpp: a connection that a thread serves, as its socket
--                   manager over its association. Attached and Observed are about the calls that
--                   register it, Passes and Accepting about the thread's loop and its start, Ending
--                   about its end.
--   MarcSample      src/yaz-marc-sample.cpp, with the records in First, Second and Third. Format says
--                   what a MARC record is.
--   MyServer        src/yaz-my-server.cpp, facilities over Server, Retrieval and MarcSample. Program
--                   has its sessions and the program; Serving is about the replies, Records about
--                   hits and records, Threads about its sessions in threads.
--   MyClient        src/yaz-my-client.cpp, over IrAssoc: responses and the wait for them. Display has
--                   what is shown of records, Typing the line and its parts, Commands the commands,
--                   Options the program. Lines is about what is typed, Paging about the client at
--                   the sample server.
--   CqlToRpn        src/yaz-cql2rpn.cpp. Outcome is about when a query is transformed.
--   Zlint           zlint/zlint.cpp and zlint/zlint.h: verdicts, versions and the packages that the
--                   tests look at. Init and Answers have the tests of init, Search and Scan the other
--                   two, with their arrays in Elements; Driver has the list of tests and the
--                   callbacks, Program the tests of zlint/main.cpp. Versions and Verdicts are about
--                   the tests of init, Talk, Endings and ScanEnding about the other two and a
--                   target that answers them, Callbacks and Order about the driver. Session is
--                   the program with its target; Completion, InitEndings, MemberEndings and
--                   Whole are about its end.
--   Zoom            zoom, on the functions of ZOOM-C. Calls has these, actions and exceptions;
--                   Client is zoom/zclient.cpp. Lifetimes, Released and Exits are about what is
--                   alive.
--   Examples        inputs at which the theorems' conditions hold.
--   Prelude         names, lists and integers that the others share.
--
-- A stateful function is a function from the state before to the state after, with the calls that
-- it makes on other objects as a list in the order made. What the system answers (the clock, the
-- poll, COMSTACK, the size of a memory pool, the memory that `new` gives) is an argument. A class's
-- private fields have their names without `m_`. Numbers are natural numbers where the source never
-- goes below 0, and integers with a sign elsewhere; the 32 bits of an `int` are written out where
-- the source narrows a time or a number of records. `GDUQueue::clear` runs on fuel, for which one
-- more than the size of the queue is enough; the loops around `yaz_poll` and `cs_get` run on the
-- list of the answers that these calls give. A talk of `zlint` with a target runs on the
-- number of responses, 27 or 4, and a session on that of callbacks, 300. A thread runs on the list
-- of what its passes meet, and the wait of the sample client on that of the turns of its manager.
--
-- A read outside of an array or through a null pointer, or a number that is printed as a string,
-- where the model has one, is `none`, in the ZOOM binding `undefined`.
--
-- Not modelled: ODR, the query parsers and the CQL transformer, which are parts of YAZ, the data that
-- threads share beyond their associations, logging, the layout of what most programs print, the
-- example zoom/canonical.cpp, and memory that is freed.
pub mod Prelude
pub mod TimeStat
pub mod LimitConnect
pub mod GduQueue
pub mod Mask
pub mod SocketManager
pub mod PduAssoc
pub mod Retrieval
pub mod RecordCache
pub mod Apdu
pub mod Server
pub mod CqlToRpn
pub mod ExtendedServices
pub mod GduCopy
pub mod IrAssoc
pub mod MarcSample
pub mod MyClient
pub mod MyServer
pub mod PduAssocThread
pub mod ZAssoc
pub mod ZDatabases
pub mod ZQuery
pub mod Zlint
pub mod Zoom
mod Examples
