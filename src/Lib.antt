-- ===== src/Lib.antt =====
-- A layer-4 load balancer with Maglev hashing: a verification library.
--
-- The program receives IPv4 frames on a raw socket, finds the flow of each packet, keeps a flow
-- with the backend that it was first sent to (conntrack), chooses a backend for a new flow from a
-- Maglev lookup table, and sends the packet on in a GRE tunnel. Backends come and go, or are
-- drained; each change makes the table generator build a new routing snapshot, which the datapath
-- reads on its next packet.
--
-- The parts, the code and the files:
--   * Common: Boolean tests, lists over native numbers, words and bytes.
--   * Net: src/net. Key is `struct flow_key`; Headers has the parsers and builders of eth.c,
--     ipv4.c, tcp_udp.c, gre.c and the ARP frames of arp_resolve.c; Flow is `packet_extract_flow`;
--     Checksum and Encap prove what a receiver reads; Arp is the exchange of arp_resolve.c.
--   * Maglev: src/maglev. Prime is `maglev_is_prime`; Hash the hashes and the name that is hashed;
--     Table the generation, lookup and routing snapshot; Cycle, Populate, Shares, Fills, Sort,
--     Start, Generate and Snapshot carry the proofs.
--   * Backend: src/backend. State and Manager are backend_manager.c; View, Refines, Invariant, Add
--     and Snapshots its proofs against a partial map; Generator, Rebuild and Reclaim are
--     table_generator.c; of health_checker.c, Health and Probes are the counters, Round the rounds
--     of probes with Counted and Once about their results, Admin and Lines the FIFO.
--   * Conntrack: src/conntrack. Table has every operation; Tally, Stock and Invariant say where each
--     entry of the slab is; Life runs sequences of calls; Lookup says where flows are pinned; Sweep
--     and Touch follow the reaper's cursor around the table.
--   * Stats: src/stats/stats_registry.c.
--   * Forward: src/forward/datapath.c. Datapath is `handle_packet` and the timer's event, Loop is
--     `datapath_run`; Closed, Handled, Expiry, Counts, Flows, Agreement, Accounts, Sticky and
--     Delivers are about what becomes of packets, flows and counters.
--   * Config: src/config/config.c, from the options that getopt_long finds.
--   * Startup: src/main.c. Threads is `run_with_tui` and what `main` does to components and threads,
--     Wiring is `main`; Checker says when these actions fit together, Joined and Cleanup that they
--     do; Routes is about the table that is built first; Fresh and Ready follow the state from the
--     creation through the run.
--   * Ui: src/ui. Metrics is the text of metrics_http.c and its buffer, Http the replies and the
--     thread; Fits and Eligible are about the text. Dashboard is the loop of tui.c.
--   * Tools: tools/maglev_remap_report.c. Remap is the tool; Slots and Rows are about its counts.
--
-- Conventions. Numbers are native; an unsigned word keeps its wrap as a remainder. A mutex or an
-- atomic makes an operation one step. Pointers into the slab of conntrack are indices, and a
-- pointer that may be NULL is an option. Allocation results are arguments. A loop that is not over
-- a list runs on fuel: table generation on m passes of m probes, the checksum on three folds, the
-- power of two on 65 doublings; the theorems say that this is enough.
--
-- The environment of a loop is a list: the results of `epoll_wait` or `poll` with what the handlers
-- then read, up to where the run is looked at, or up to the deadline of a round of probes. Other
-- threads show in what is read: the snapshot in force, at each packet.
--
-- Parameters: XXH64, inet_pton, strtol, strtoul, sscanf, the socket that sends, and the clock. No
-- law of them is assumed. Of `epoll_wait`, a round of probes assumes that it names only sockets that
-- are registered.
--
-- Not modelled: system calls themselves (src/net/raw_socket.c), the drawing of the dashboard
-- (src/ui/tui.c), printing, and the release of memory but for the order of the cleanup.
pub mod Common
pub mod Net
pub mod Maglev
pub mod Backend
pub mod Conntrack
pub mod Startup
pub mod Stats
pub mod Tools
pub mod Ui
pub mod Forward
pub mod Config
