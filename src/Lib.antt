-- ===== src/Lib.antt =====
-- tsastat measures how long each thread of a process spends in each state. A backend
-- (internal/backend) hands the collector (internal/collector) either snapshots of the threads or a
-- stream of scheduler events; the collector turns them into one report per interval, and
-- internal/output prints the reports. This library models the two accumulators that do the
-- turning, on the data model of internal/model, and around them the loops of the collector, the
-- merge of their reports, the snapshots and records of the backends, the parsers of procfs, the
-- checks of the command line and the filter of the output.
--
-- Prelude and its children: the names that all modules share; words of 64 bits; Boolean tests and
-- equality as an interface; code that may not return (`none` is a panic or a loop that does not
-- end, `Returns` says that the code returns and what its result satisfies); association lists for
-- Go's maps, visited in the order of the list; sums over maps; sort.Slice as an insertion sort.
--
-- Clock: time.Time as nanoseconds since the zero time, time.Duration as a 64-bit pattern; Sub
-- saturates, Add wraps.
--
-- Text: Go's strings as lists of bytes, and what the program uses of the packages strings, strconv
-- and encoding/binary. Fields and TrimSpace know the white space of ASCII only, which is all that
-- the kernel writes outside a thread's name.
--
-- Model (internal/model): State, Sample, Scheduler and Stats hold the records of state.go,
-- sample.go, scheduler.go and stats.go, with Go's field names in snake case; Sources has the
-- errors that the code tells apart and what a source of snapshots answers.
--
-- Collector.Grid: the fields origin, interval and nextWindow that both accumulators have;
-- windowIndex, windowBounds and forEachWindow. The loop of forEachWindow runs on fuel, the length
-- of the span, which is enough because every round moves on. Collector.Counters: multiplyDivide,
-- nanosecondsDuration and calculateDelayCounterDelta.
--
-- Collector.Accumulator (internal/collector/accumulator.go): Windows has the accessors window and
-- threadStats, as functions that write one entry; Schedstat, Delays and Gaps have the bookkeeping
-- of the time between two readings of a thread; Scan has normalizeSnapshot, recordScan and
-- recordObservation; Finalize has finalizeThrough and sortedStats; Observe has the constructors
-- and Observe.
--
-- Collector.EventAccumulator (internal/collector/event_accumulator.go): Track has schedulerTrack
-- and applyTransition; Windows has the window accessors and what an event or a segment writes;
-- Observe has the constructor and Observe; Advance has Advance. Runs is a sequence of calls.
--
-- Collector.Loop (internal/collector/collector.go): Run and its loops. What a select receives, in
-- turn, is a list of messages; a timer's or ticker's message carries what the code asks for when
-- it fires, such as a snapshot. A loop that has seen all its messages waits. The parameter Sink is
-- the number of reports to emit, and what emit and SourceStatus answer. Snapshots, Events and
-- Hybrid are the three loops; Emitted has the rule from the rounds of a loop to what it emits.
--
-- Collector.Hybrid (internal/collector/collector.go): how the report of the events takes over the
-- counters of an auxiliary report.
--
-- Backend.Hybrid (internal/backend/hybrid/hybrid.go): Snapshot with its fallback from taskstats to
-- procfs, mergeSnapshots, and the sets of active and unavailable sources.
--
-- Backend.Files, Backend.Proc and Backend.Taskstats (internal/backend/proc/proc.go,
-- internal/backend/taskstats): what the two backends read of a task, and Snapshot, where each
-- attempt on a task carries what its files, the taskstats client and the clock answer; the decoder
-- of the taskstats payload, and the kernel's record that it reads (Layout). Backend.Netlink
-- (internal/backend/taskstats/netlink_linux.go): the messages of the taskstats client and its
-- Stats, over the datagrams that arrive; the loops over messages and attributes run on fuel, one
-- round for each byte, which is enough because every round passes a header. Backend.Ebpf
-- (internal/backend/ebpf): the records of the ring buffer, the state after a switch and the
-- conversion of start times. A name is bytes there, and the conversion to the model's strings is a
-- parameter.
--
-- Procfs (internal/procfs/parser.go): ParseProcStatLine and ParseSchedstatLine. App.Config
-- (internal/app/config.go): what parseConfig does after the flag package has read the flags;
-- time.ParseDuration is a parameter. An int that may be negative is a 64-bit pattern.
--
-- Output.Filter (internal/output/filter.go): FilterAndSort. How a pattern matches a name and how
-- Go orders strings are parameters.
--
-- Collector.Totals: the sum of one figure of one thread over all open windows, in which the
-- theorems on bookkeeping are stated.
--
-- Bounds: a time is in the horizon if it lies, with one interval to spare, less than 2 ^ 63
-- nanoseconds after the origin; intervals are positive, as parseConfig in internal/app/config.go
-- ensures. Task ids are not negative, and Go's int counters are not cut to 64 bits. The fuel of
-- finalizeThrough and Advance is the distance from the origin to the watermark.
--
-- Not modelled: percentages, which are floating point; the system calls that read procfs, the
-- sockets and BPF, and the Close of a source; the times at which the timers are set; the sorting
-- of the source names; the flag package, the doctor and the printing.
pub mod Prelude
pub mod Clock
pub mod Text
pub mod Procfs
pub mod Model
pub mod App
pub mod Collector
pub mod Backend
pub mod Output
