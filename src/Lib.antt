-- ===== src/Lib.antt =====
-- harnsGateway is an industrial gateway: it reads the variables of field devices in cycles, over
-- Modbus, S7 or OPC UA, and writes them on demand. This library models the Modbus and S7
-- clients with what they stand on, and proves what makes a poll right: what is asked for, the bytes
-- that go out and come back, and the values that are made of them.
--
-- The parts, and the files that model them. Paths are those of the repository.
--   Prelude         lists measured by native numbers, Boolean tests, chains of steps that may panic,
--                   Go's signed integers (Int), and the bit operations (Bits).
--   Binutil         pkg/utils/binutil/bytes.go: Parse reads words from bytes in four byte orders,
--                   Encode makes bytes of words, Write stores them in a buffer, Bools packs Booleans
--                   into bytes; Float does the same for floats.
--   Constant        pkg/runtime/constant: data types, memory layouts, access modes and their names.
--   Crc             pkg/utils/crcutil/crc16.go, with its two tables. Reference is the CRC of the
--                   Modbus specification, bit by bit; Tables, Equivalence, Residue and Detection are
--                   about CheckCrc16sum.
--   Modbus.Types    pkg/protocol/modbus/runtime/type.go and constant.go: variables, data frames,
--                   function codes, errors.
--   Modbus.Plan     the loop of NewBroker (pkg/protocol/modbus/modbusbroker.go) that packs variables
--                   into read requests, one definition per branch; Coverage, Bounds and Overlap are
--                   about it.
--   Modbus.Broker   the rest of NewBroker: grouping by function code, sorting, data frames; Frames
--                   joins it to the polls.
--   Modbus.Request  GenerateReadMessage of the three models in pkg/protocol/modbus/model.
--   Modbus.Response WriteTransactionId and ValidateAndExtractMessage.
--   Modbus.Layout   the words of a memory layout. Modbus.Decode is ParseVariableValue, and
--                   Modbus.Action is generateActionBytes.
--   Modbus.Messenger  pkg/protocol/modbus/runtime/clients.go: AskAtLeast over TCP and on a serial
--                   line; the interface Messenger that message takes.
--   Modbus.Message  message and retry of modbusbroker.go, one poll of one data frame.
--   Modbus.Deliver  DeliverAction of modbusbroker.go: the values and frames; Reply has the requests
--                   and the checks of what comes back.
--   Modbus.Clients  the pool of connections of clients.go and NewClients; System has the interleaved
--                   steps of its callers.
--   S7.Types, S7.Address  pkg/protocol/s7/runtime/type.go and constant.go: areas, variables, lengths,
--                   and the addresses of variables as texts; Forms has the texts that are read.
--   S7.Request      pkg/protocol/s7/s7broker.go: the bytes of items and of frames.
--   S7.Plan         the loop of NewBroker that packs the variables of an area into frames; Coverage,
--                   Bounds and Layout are about it. S7.Broker is the rest of NewBroker.
--   S7.Response     ValidateMessage and ParseVariableValue. Data is a device with a memory that answers, Located
--                   the values in its answers.
--   S7.Message      message and retry, with the interface Messenger of
--                   pkg/protocol/s7/runtime/clients.go.
--   S7.Action       generateActionParameterDataItem; Deliver is the rest of DeliverAction.
--   S7.Connect      pkg/protocol/s7/model/s71500.go: the handshake, the length of a PDU, NewClients.
--   Device.Types, Device.Manager  pkg/device/manager.go and the status in pkg/runtime/meta.go: which
--                   devices have a broker, and which wait for a connection. Invariant says when a
--                   manager is in order; Collect, HeartBeat and Reachable keep it so, Steps has the
--                   sequences of steps, and Renewed an update.
--   Tests           concrete runs, and each theorem at a concrete input.
--
-- How they meet: NewBroker packs the variables of a device (Plan) and makes a data frame of each
-- request (Request). A poll takes a connection from the pool (Clients), sends the frame (Messenger),
-- up to three times (Message), checks what came back (Response) and reads the values (Decode). An
-- action goes the other way: values become PDUs (Action), frames and requests (Deliver). S7 has the
-- same parts; its pool and its TcpClient are the code of Modbus once more, in which only an error
-- has another name, so that they are modelled in Modbus. The device manager starts and ends the brokers,
-- each of which is here only the outcome of its NewBroker; each of its operations is one step, also
-- where goroutines run them side by side.
--
-- Numbers are native. A word of w bits is a number below 2 ^ w, and wrap-around is written out as
-- % 2 ^ w; a signed integer is a ℤ, which int16 and its kin read off a word. A Go panic is none, or panic of
-- Modbus.Types.Result; an error is a constructor of the Error of the protocol's Types. Go's maps are association
-- lists in the order of first use, functions in Device.Manager, and the order of their keys is left open where a step depends on
-- it (Modbus.Clients.System). The world outside, connections, ports and time, is a type W that the
-- calls of the net, io and serial packages, which are parameters, pass on.
--
-- Three loops run on fuel: the packing loop of the Modbus NewBroker on twice the number of
-- variables, the read loop of a serial port on one more than the length of the buffer, and the loop
-- of the S7 retry on three and the number of requests that fail: it has no bound of its own. Each is
-- proved to end within it.
--
-- Floats are a parameter (Binutil.Float.FloatOps): the operations that the program uses, and of their
-- laws only that the bits of a float are a word and give it back. sort.Sort is a parameter of
-- NewBroker, strconv.ParseBool one of DeliverAction. Not modelled: the goroutines that collect in
-- cycles, the OPC UA protocol, the managers of the protocols' devices, the actions, lists and
-- publishing of the device manager, the managers of data and gateway, the HTTP layer, the stores, the commands and their options, logging, and
-- pkg/tsdb, which is a copy of another project's library.
pub mod Prelude
pub mod Binutil
pub mod Constant
pub mod Crc
pub mod Modbus
pub mod S7
pub mod Device
mod Tests
