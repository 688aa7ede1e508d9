-- ===== src/Lib.antt =====
-- gzb talks to a Zigbee coordinator over a serial port. Four layers, a registry, what a program uses of
-- them and part of the prompt are modelled:
--
-- ASH (internal/ash) makes the serial line a reliable link. frame.go turns a frame into bytes: Ash.Crc,
-- Ash.Random and Ash.Stuff are `crc16`, `randomize`, `stuff` and `unstuff`; Ash.Frame is `Encode` and
-- `Decode`. conn.go is Ash.Scanner (`scanner.next`, which cuts what the port delivers into frames),
-- Ash.Conn (the state of `Conn`, `readPump`, `handle`, `write`, `fail`, `err`, `Close`) and
-- Ash.Conn.Send (`Send`, `awaitAck`, `Reset`). A channel is the list of what waits in it. A lock is left
-- out: each function is a run of critical sections that `sendMu` or the one read pump serialises. The
-- port's answer to a write, and the events that a select takes, in their order, are arguments.
--
-- EZSP (internal/ezsp) carries commands and callbacks as the payloads of ASH DATA frames. Ezsp.Protocol is
-- `encodeCommand` and `decodeMessage` of protocol.go; Ezsp.Conn is `route`, `Subscribe`, `command`,
-- `negotiate` and `Close` of conn.go; Ezsp.Join is the decoders of join.go. Ezsp.Talk is a conversation of
-- several commands: the adapter is a function of what it was sent, and the commands sent are kept. On it
-- stand Ezsp.Commands (commands.go), Ezsp.Network (network.go: forming, joining, the wait for the
-- network), Ezsp.Scan (scan.go: the loop and `mergeNetwork`), Ezsp.Send (send.go: `SendUnicast`,
-- `awaitReply`, `Request`) and Ezsp.Setup (config.go, endpoint.go, policy.go, and what `Open` tells the
-- adapter behind the handshake). Cursor is the reader `buf` of codec.go, which the ZDO and ZCL packages
-- have under the name `cursor`.
--
-- ZDO (internal/zdo/zdo.go) is Zdo: requests and the descriptor parsers. ZCL (internal/zcl) is Zcl.Value
-- (`decodeValue` and `encodeValue`, with the conversions of encode.go) and Zcl.Frame (the header, read and
-- write requests, write responses, cluster commands), Zcl.Attributes (`Attributes`, `DefaultResponse`,
-- `ReadReportingConfigResponse`) and Zcl.Reporting (`ConfigureReportingRequest` and
-- `ConfigureReportingResponse`). The floating-point numbers are a parameter, of which one fact is assumed
-- where it is used: `math.Float32bits` gives 32 bits.
--
-- The registry (internal/store/store.go) is Store: a map as an association list, `Observe`,
-- `ObserveNodeID`, `ByNodeID`, `Remove`, `PeerOfModel`. Where Go walks a map the order is open; the order
-- of the list stands for it. Store.Name is name.go: `NormalizeName`, `ValidateName`, `ParseNodeID`,
-- `SetName`, `ClearName`, `Resolve`, and `List` of store.go on which it stands. A text is the list of its
-- code points; what Unicode says of a code point (its case, whether it is a space or a control) is the
-- parameter `Letters` of Base.Letters, where the functions of `strings` and `strconv` that are used stand.
--
-- The package zigbee is Zigbee: Zigbee.Query is
-- `zdoQuery` and the four questions, Zigbee.Description what is learned, inherited and recorded,
-- Zigbee.Interview the interview as a whole. The answers to the questions are its arguments, and the
-- registry is the one of Store, which no one else writes to while the interview runs. Zigbee.Command is
-- `SendCommand` with `zclRequest`, and Zigbee.Attributes is `WriteAttributes` and `ConfigureReporting` of
-- attributes.go, without names. Zigbee.Devices is devices.go: the look-ups and the naming of the
-- coordinator, with what saving the registry answers as an argument. Zigbee.Color is color.go over a
-- parameter for the floating-point numbers, with their formulas in Zigbee.Color.Chromaticity. Zigbee.Light
-- is lights.go: the operations and `Apply`, over an interface `Remote` for what they ask of a device, so
-- that Zigbee.Light.Orders can keep the commands that were sent. A duration is in nanoseconds.
--
-- The prompt (cmd/gzb) is Prompt: Prompt.Words is `tokenize`, `quoteWord`, `quotePartial` and
-- `commonPrefix` of repl_grammar.go, on the bytes of a line, and Prompt.Resolve is resolve.go: which device
-- an argument means, with the cluster that a command is about, and which endpoint of it.
--
-- Base holds what the models share: lists and bytes over the native numbers, the bit operations as
-- arithmetic, Go's pair of a value and an error, two's complement. Examples applies the theorems to
-- concrete inputs. A uint8 or uint16 is a number with its bound as a hypothesis where one is needed; a
-- conversion to a narrower type is written out as `%`, and a shift as `*` or `/`.
--
-- Two functions run on fuel, `read_records` and `held_records`, the loops of `Attributes` and of
-- `ReadReportingConfigResponse`: they have one unit for each byte, and as each turn but the last takes a
-- byte, that is enough. All else recurses on its data: the scanner and the waits recurse on the list of
-- what the environment gives, `Send` on the attempts left (four), a random PAN ID on its draws left
-- (eight), and the readers on the count they read.
--
-- Not modelled: String methods and tables of names, which only print; tracers; the serial port of `Open`;
-- the attribute table and readings of internal/zcl; the files, JSON and migrations of internal/store; of the
-- package zigbee the life of the coordinator, the joins and readings that it records, the reads of
-- attributes, and the words for a light and their tables; of the package cmd/gzb everything but the words of
-- a line and resolve.go: the rest is flags, printing, the terminal and the table of completions.
pub mod Ash
pub mod Base
pub mod Cursor
pub mod Examples
pub mod Ezsp
pub mod Prompt
pub mod Store
pub mod Zcl
pub mod Zdo
pub mod Zigbee
