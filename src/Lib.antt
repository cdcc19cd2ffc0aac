-- ===== src/Lib.antt =====
-- pyscan, an industrial network scanner and intrusion monitor: its domain logic and capture codecs.
--
-- Paths are from the repository's root. The parts, and the files that model them:
--
--   Prelude          shared helpers: Boolean tests, lists over the native numbers, text as a list
--                    of character codes, results with Python's exceptions, signed integers.
--   Wire             `struct.pack` and `struct.unpack` of one, two and four bytes, indexing.
--   Modbus           src/pyscan/domain/modbus.py: `read_function_code`, the function tables, the
--                    device-id request and answer. Modbus/Frame is its specification.
--   Iec104           src/pyscan/domain/iec104.py: `parse_apdus` and its loop, type ids, descriptions.
--   S7comm           src/pyscan/domain/s7comm.py: `parse_job`, the handshake builders, `parse_szl`.
--   Packet           src/pyscan/domain/packet.py: `decode` over Ethernet, Linux cooked and raw IP,
--                    with Packet/Ip for the network layer and Packet/Transport for TCP, UDP, ICMP.
--   Detect           src/pyscan/domain/ot_detect.py: `feed`. Detect/State holds the baseline, the
--                    detector and `_alert`; Detect/Rules one function per rule; Detect/Wording the
--                    alert texts.
--   Traffic          src/pyscan/domain/ot_traffic.py: payload builders, the scenario, the encoder.
--   Capture          src/pyscan/adapters/capture: `read_pcap` for both formats, and the writer.
--   Monitor          src/pyscan/application/monitor_service.py: `MonitorService.run`.
--   Scan             src/pyscan/domain: port_spec.py (PortSpec), targets.py (Targets), well_known.py
--                    and top_ports.py (Services), models.py and syn.py (Models), udp_probes.py
--                    (Probes), rate.py (Pacer); src/pyscan/application/scan_service.py (Service);
--                    src/pyscan/adapters/strategies: modbus.py, iec104.py, udp.py (Strategies).
--                    Scan/Tasks is the schedule of scan_service.py: `bounded` and `probe_once` of
--                    every port under `asyncio.gather`, as a step relation. Scan/Hosts is `_resolve`,
--                    `scan_host` and `run`, with src/pyscan/application/sweep_service.py and
--                    src/pyscan/adapters/discovery/tcp_ping.py. Below Scan/Strategies stand Connect
--                    (tcp_connect.py, syn.py), Handshake (s7comm.py) and Registry (registry.py).
--   Command          src/pyscan/cli/main.py: how commands end (Command), `scan` and `sweep` (Probe),
--                    `sniff` with src/pyscan/adapters/output/packet_table.py and sniff_tui.py
--                    (Sniff), `monitor` with incident_report.py and monitor_tui.py (Watch),
--                    `lab` (Lab).
--   Output           src/pyscan/adapters/output: table.py, csv_sink.py, json_sink.py, network_table.py
--                    and network_json.py, as cells and members.
--
-- How they interact: a capture is read by Capture into frames, Monitor decodes each frame by Packet
-- and feeds it to Detect, whose rules call the codecs Modbus, Iec104 and S7comm. Traffic builds
-- frames that Capture writes and the same path reads. Command hands a scan to Scan, which probes each
-- port by a strategy under Scan/Strategies, and a capture to Monitor and Packet.
--
-- How the code is mirrored. A Python exception is the error of a Result, with one constructor for
-- each class that a handler of the code names. A method that changes the detector takes the detector
-- and returns it with its answer. A generator is a Stream: frames, then an end or an exception. Bytes
-- and characters are numbers, and a slice past the end is shorter, as in Python. A set is a list to
-- which `add` appends what it does not hold.
--
-- Loops. `parse_apdus` recurses on the limit that the code has. The loops over pcap records, pcapng
-- blocks, options and IPv6 extension headers take as fuel one more than the bytes there are, and
-- each round passes at least one of them; the loop over a capture returns `stuck` without fuel.
--
-- Parameters. `ntop` is the operating system's printing of an IPv6 address. Timestamps are a type of
-- the caller's: Clock holds the arithmetic that reading needs, Rounding what writing needs. Nothing is
-- assumed of them where a theorem does not say so. Printing is `datetime.fromtimestamp` and
-- `strftime`, which raise for a time that is no date; a rate is a float seen through its sign.
--
-- Interleavings. The tasks of a scan are a list with a state each; a step lets one task go on, by
-- passing the rate gate, taking a place of the semaphore, or answering and freeing it. The network's
-- answer to each attempt at each port is fixed and raises nothing there; how long a wait takes is
-- left open, so every order of steps is a run. A strategy is a function of what the network did: how
-- the connection ended, UnicodeError for the name included, and the bytes that came before the first
-- wait that failed. In Scan/Service/Probing and Scan/Hosts an attempt may raise: what one strategy
-- raises is of one class, so the first exception in the order of the tasks stands for whichever comes
-- first in time.
--
-- Not modelled: sockets, the event loop beyond the steps of a scan, widgets and colours, the layout
-- of printed tables, the syntax of JSON and CSV, argument parsing, live capture, and the libraries
-- behind them; the regular expressions of src/pyscan/domain/fingerprint.py, which are a parameter; the
-- file system under the capture files; the order in which a set is iterated, which the modelled code
-- never observes; tools/modbus_sim.py, a simulator that only configures a library.
pub mod Prelude
pub mod Wire
pub mod Modbus
pub mod Iec104
pub mod S7comm
pub mod Packet
pub mod Detect
pub mod Traffic
pub mod Capture
pub mod Monitor
pub mod Scan
pub mod Command
pub mod Output
pub mod Tests
