-- ===== src/Lib.antt =====
-- Go-Webtools: a Go library of network and storage tools. Modelled are its parts that hold state or
-- encode data; sockets, goroutines, console output, HTML and encryption only call other libraries.
--
-- The parts and their files:
--   * Base: shared names, Boolean tests, lists by native index, bytes of words, decimal numbers
--     (strconv.Itoa and Atoi), and the bits of numbers.
--   * Helpers.Width, Helpers.BitArray, Helpers.UsedBytes: helpertools/BitOperations.go. A type
--     parameter such as ~uint8 | ~uint16 is a Width; an array of words is a list, read as
--     one row of bits.
--   * Helpers.SafeMap: helpertools/SafeMap.go. The map is the list of its entries.
--   * Helpers.ReplayWindow: helpertools/ReplayWindow.go (MakeReplayWindow, ApplyWindowCheck,
--     CheckValue, SetWindowData and its variants on bytes, JoinWindowData and its variants on bytes,
--     IterateReplayWindowBits, GetReplayWindowBits), on top of Helpers.BitArray.
--     Setup has the invariant, Forward and Apply the steps, Replay their sequences.
--   * Helpers.PacketHeap: container/heap as the packet orderer uses it. Helpers.PacketOrderer:
--     helpertools/PacketOrdererHeap.go. Exports has the loops, Delivery the sequences of calls.
--   * Helpers.SafeSlice: helpertools/SafeSlice.go, and InsertElementAtIndex and
--     RemoveElementAtIndex of helpertools/RandomTools.go.
--   * Database.Stream: the reader and writer that database/*.go is given. Database.Codec,
--     Database.Collections, Database.Passwords: database/DatabaseShared.go (numbers, strings,
--     booleans, maps, slices, times and password objects).
--     Database.LimitedText: database/LimitedString.go.
--   * Database.RamStore: database/RAMDatabase.go. Database.Journal:
--     database/JournalingRAMDatabase.go. Both keep a Helpers.SafeMap and write it with
--     Database.Codec; the functions that encode and decode a value are parameters, and what the code
--     relies on of them is the record RoundTrips.
--   * Proxy.Frames: proxy/Frames.go.
--   * Filesystem.Diff: filesystem/DiffTools.go (DiffTrim, DiffInStringLCS, PatchUsingChanges). Trim has
--     the trimming, Walk the letters that the matrix links, Detect and Sorting the changes and their
--     order, Script what a patch does with them, Filled and Longest the matrix.
--   * Filesystem.PathTools: filesystem/PathTools.go, with the calls of os and path/filepath as a record.
--   * Helpers.Jsonc: JSONCToJSON of helpertools/ConfigManager.go.
--   * Helpers.RttCalculator: helpertools/RTTCalculator.go and NestedAverage.
--   * Udp.Stabilizer: udp/UDPConnectionStabilizer.go. It keeps, for each connection, two windows of
--     Helpers.ReplayWindow, two orderers of Helpers.PacketOrderer and two calculators of
--     Helpers.RttCalculator. Write has the calls that send, Read those that receive, Timers what
--     time.AfterFunc is given and the connects. A call returns the state and its effects in order: the
--     frames sent, the data passed to the read function, the connections closed and the timers set.
--
-- Conventions. A Go string or []byte is a list of bytes as numbers. An operation on a shared object
-- takes the state and returns the new one; methods that hold a lock to their end are single steps.
-- Machine integers keep their wrap-around (`% 2 ^ w`), a time.Duration that of int64, and float64
-- its rounding; `make` panics past the largest allocation of amd64, and memory is else taken to be
-- there. Errors are values of Error, a panic is an error or a result of its own. What may fail of
-- the operating system during an operation is an argument of it (SaveFaults, Faults).
--
-- Fuel. RAMDatabase.Load and the journal loop get one round more than the file has bytes, because each
-- round reads at least one byte of a key. UnpackWebtoolsFrame gets one round more than the frame has
-- bytes, because it calls itself on shorter frames. The loops of the packet orderer get two rounds more
-- than the heap has packets, because each exports a packet. In a heap, `up` gets one round more than the
-- index of the pushed element, which each round at least halves, and `down` one for each element.
--
-- Not modelled. Reflection (database/DatabaseUniversal.go), the sockets of tcp and udp, httptools,
-- p2p, encryption, the proxies around the frames, the file watchers, DiffInStringLCSAlt and the
-- rest of the configuration files. In the stabilizer a call runs at one instant and is not
-- interleaved with another; the log is left out. A patch works on values: that RemoveElementAtIndex
-- writes into the slice of the caller is not seen. A failing os.Remove in
-- JournalingRAMDatabase.Save is not modelled; nor is the order in which Go visits a map, for which
-- the order of the list stands.
pub mod Base
pub mod Filesystem
pub mod Helpers
pub mod Database
pub mod Proxy
pub mod Udp
