-- ===== src/Lib.antt =====
-- Verification of diffmantic, a structural diff tool: it parses two versions of a file, matches
-- the nodes of the two trees, derives edit actions and renders them beside the lines of the text.
--
-- Base holds the shared names: lists indexed by native numbers, Boolean tests and case splits.
--
-- Engine/Mapping models internal/engine/mapping.go. A node is a number (its identity), a nil
-- pointer is none, the two Go maps are functions, Pairs a list. Add, Remove, RemoveSet, Get, Has
-- and HasDst keep their names.
--
-- Engine/SeqDiff models internal/engine/seqdiff.go: the flat table of AlignWeighted is a list, its
-- loops are recursions on the rounds left, and the backtracking has n + m rounds of fuel, which is
-- enough since each round lowers i or j. An inclusive end that may be -1 is kept as the exclusive
-- end.
--
-- Engine/WordDiff models internal/engine/worddiff.go over bytes, with the UTF-8 decoding of Go's
-- library written out and its tables of letters and digits as a parameter. It uses the trimming and
-- the alignment of Engine/SeqDiff.
--
-- Engine/LineDiff models internal/engine/linediff.go: LineDiff itself (Engine/LineDiff/Whole), the
-- alignment of a window of lines (alignLineWindow, lineWeight; rules.IsPunctuation is a parameter),
-- the anchors of large windows with computeLIS (Engine/LineDiff/Patience) and the compaction
-- (compactLineDiff, compactChanges, scoreBoundary, lineIndent), with strings.TrimSpace of Go's library
-- written out. Maps of lines are lists of their entries. Every loop has as many rounds of fuel as there
-- are lines, which is enough since each round moves its index on by one or more; the binary search has
-- as many as there are tails, which it halves in each round.
--
-- Serialize models the line grid of internal/serialize/align.go. Serialize/Gotoh is the alignment of a
-- gap with affine costs (alignGapGotohDense, selectState): the three layers of the flat table are the
-- fields of a cell, and a step of the backtracking before the first line is none. Serialize/Gotoh/Banded
-- is alignGapGotohBanded with bandBounds, its table, its backtracking and its fall back to the dense
-- table; the columns of the band's center, products of floating point numbers, rounded down and up, are
-- arguments. Both backtrackings have as many rounds as there are lines on both sides, which is enough
-- since each round lowers i or j. Serialize/Grid is
-- alignGapGotoh, which divides large gaps by the pairs of Engine/LineDiff, and emitGrid; its fuel is one
-- more than the lines on the left, since an anchor takes a line from every gap it divides.
-- Serialize/Anchors is filterMonotonic, which shares its arrays with computeLIS, and mergeAnchors.
-- Serialize/Moves is moveRange and stationaryIndex, and Serialize/Tiers is AlignLines over them:
-- the tiers of anchors and the score of two lines. Serialize/Similarity counts shared bigrams
-- (calculateSimilarity), and the score of two lines takes its terms. What AlignLines takes from the
-- trees, the test for shared words, and the rounding of the quotient, a floating point number, are
-- arguments. Integers that may be negative are those of Base/Int.
--
-- Render/Hunks models internal/renderutil/hunks.go: a change interval and a hunk are ranges of aligned
-- pairs with inclusive ends, and the pairs are those of internal/serialize/json.go. The last hunk,
-- which a later interval may still extend, is kept apart from the finished ones.
--
-- Render/Cursor models internal/renderutil/cursor.go: the cursor is the list of spans and an index, and
-- each call returns the moved cursor with the action. Strings are bytes.
--
-- Cmd/Pool models the concurrency of cmd/concurrent.go (runConcurrentDiffJobs) as a relation of steps: the
-- channels are lists of job indices, the semaphore is the number of free permits, and a sequence of
-- steps is an interleaving of the goroutines. A send to a full channel waits, the one that gives a
-- permit back to the semaphore too.
--
-- Streamdiff/Paths models the header paths of internal/streamdiff/stream.go (parseDiffGitPaths,
-- parseGitPathToken, cleanGitPathPrefix); strconv.Unquote is a parameter.
--
-- Not modelled: the tree-sitter bridge, the rule tables of the languages, process and file access,
-- and the parts that the manifest lists as not modelled.
pub mod Base
pub mod Cmd
pub mod Engine
pub mod Render
pub mod Serialize
pub mod Streamdiff
