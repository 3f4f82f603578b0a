-- ===== src/Lib.antt =====
-- A model of MQTT-S-Gateway, the gateway between MQTT-SN clients on an XBee network and an MQTT broker
-- (TomyGateway/src).
--
-- The gateway's tasks exchange messages through the queues of a client node and post an event for each.
-- ClientRecvTask reads a frame of the XBee network into the node of its sender; GatewayControlTask
-- handles it, queues what goes to the broker or back, and posts the events; BrokerSendTask and
-- ClientSendTask write what is queued; BrokerRecvTask reads what the broker sends.
--
-- Which file models which part:
--   Bytes            TomyGateway/src/libmq/ProcessFramework.cpp: getUint16 to utfSerialize
--   Timer            the same file: class Timer
--   Process          the same file: Exception, Thread and MultiTaskProcess, with Process/Running (a
--                    program in steps), Process/Locking (Mutex, Semaphore) and
--                    Process/Deadline (Semaphore::timedwait)
--   RemainingLength  TomyGateway/src/libmq/Messages.cpp: class RemainingLength
--   Mqtt             the same file: the MQTT classes, with Mqtt/Serialize and Mqtt/Deserialize
--   Sn               the same file: the MQTT-SN classes, with Sn/Requests (what clients send) and
--                    Sn/Replies (what the gateway sends) and Sn/Builders (the client's side)
--   Topics           TomyGateway/src/libmq/Topics.cpp: the topic table of a client, with Topics/Wildcards
--   Xbee             TomyGateway/src/libmq/ZBStack.cpp: Xbee/Send writes frames (sendRequest, sendByte),
--                    Xbee/Receive reads them (readPacket, receiveResponse)
--   Socket           TomyGateway/src/libmq/Socket.cpp: the connection of a client to the broker, with
--                    Socket/Serving (bind, listen, accept)
--   Client, Clients  TomyGateway/src/GatewayResourcesProvider.cpp: classes ClientNode and ClientList, with
--                    Clients/Authorize (ClientList::authorize) and Clients/Erasing (erase)
--   Event, Gateway   the same file and TomyGateway/src/libmq/ProcessFramework.h: class Event with its
--                    destructor, EventQue, and what the tasks share
--   Control          TomyGateway/src/GatewayControlTask.cpp: the dispatch of run to the handlers; those of
--                    client messages are in Control/Upstream, Control/Subscribe and Control/Connect,
--                    those of broker messages in Control/Downstream, and what they share,
--                    msgPrint too, in Control/Context
--   Gateway/Run      the same file: a round of run, with its timers and broadcasts
--   Gateway/FromClients, Gateway/ToClients
--                    TomyGateway/src/ClientRecvTask.cpp and ClientSendTask.cpp
--   Gateway/FromBroker, Gateway/ToBroker
--                    TomyGateway/src/BrokerRecvTask.cpp and BrokerSendTask.cpp
--   Gateway/CommandLine
--                    the arguments of the command line, as the tasks read them
-- Gateway/Arrival, Gateway/Ascent, Gateway/Downward and Gateway/Relay follow a PUBLISH through the tasks.
-- The other files prove what their names say. Base has the shared names, Tests the runs at concrete
-- values.
--
-- Operations keep the source's names in lower case with underscores (handleSnPublish is
-- handle_sn_publish). A class is a record, and an operation takes the record and returns the new
-- one. An operation that may access memory outside of a block, or a deleted block, returns an
-- Option: `none` is that access. The fields of 8 and 16 bits wrap around where the source stores
-- into them. What the source reads where the language leaves the value open (the inside of a
-- std::string, bytes that were not written) is an argument. The clock is an argument.
--
-- A task's round is a function on the state that the tasks share, and a run of the gateway is a
-- sequence of rounds in any order: the mutexes of the source make each access to a queue one step,
-- a message is queued before its event is posted, and a round stands for the accesses of one pass
-- through the loop. A wait is a round that changes nothing. The one wait inside of a round, in
-- Socket::disconnect, divides the round of BrokerSendTask in two. What the operating system, the
-- radio and the C library answer is an argument of the round.
--
-- The loops run over the bytes or the digits that they read, and a remaining length below 65536
-- takes three digits of the four that a RemainingLength holds. Only the loop of recvAndFireEvent
-- has fuel, one more than the bytes that were received, since a packet may count as no bytes.
--
-- Process stands beside this: there the steps are the calls of MultiTaskProcess::run and the ends
-- of the tasks, whatever the tasks do.
--
-- Not modelled: the calls of pthread as such, the serial port, the calls of the operating system
-- that only pass on its answer, the texts of the debug output, and destructors that free memory. The
-- buffers that msgPrint of the control task and of BrokerRecvTask write to are modelled, since
-- GatewayDefines.h switches this output on and a long message is written past their end. That of
-- BrokerSendTask has room for any packet that fits the task's buffer for packets.
pub mod Base
pub mod Bytes
pub mod RemainingLength
pub mod Mqtt
pub mod Sn
pub mod Topics
pub mod Timer
pub mod Socket
pub mod Client
pub mod Clients
pub mod Gateway
pub mod Process
pub mod Event
pub mod Control
pub mod Xbee
pub mod Tests
