-- ===== src/Lib.antt =====
-- Models of GNUstep GUI, the AppKit library of GNUstep, with what is proved of them.
--
-- Parts of the program
--   Source/GSTextStorage.m is the concrete attributed string behind every text view. It keeps the
--   characters, and an array of runs: each run holds the position of its first character and a
--   dictionary of attributes that it shares, with a count, through a cache. TextStorage models it:
--     TextStorage/Cache          attrMap, cacheAttributes, unCacheAttributes
--     TextStorage/Store          the object, its exceptions, and the messages that its methods send
--     TextStorage/Search         _attributesAtIndexEffectiveRange, and its binary search
--     TextStorage/Runs           _sanity, and what the runs mean
--     TextStorage/Lookup         the search on sane runs
--     TextStorage/AttributesAt   attributesAtIndex:effectiveRange:
--     TextStorage/SetAttributes  setAttributes:range:
--     TextStorage/Replace        replaceCharactersInRange:withString:
--   Source/NSDiffableDataSource.m describes the contents of collection views and table views by
--   identifiers, in sections. Diffable models it:
--     Diffable/Collections       the arrays and dictionaries of Foundation that it uses
--     Diffable/Snapshot          NSDiffableDataSourceSnapshot, with Valid (well-formed snapshots),
--                                Reached (sequences of methods), Order (moved sections), Items and
--                                Append (the list of all items)
--     Diffable/Source            the two data sources, with Paths (the table of index paths) and
--                                Rows (the rows of the table view)
--   Source/NSTabView.m keeps the items of a tab view and the selected one, and asks its delegate
--   before a selection. TabView models it, with Selection and Steps (the selection under every
--   sequence of methods) and Moves (the neighbours of an item, and a delegate that refuses).
--   Source/NSTreeNode.m keeps the nodes of a tree, for the controllers of outlines. TreeNode models it
--   as a store of nodes, with Links (parents and children) and Paths (index paths).
--   Headers/AppKit/DPSOperators.h and PSOperators.h draw by functions that look methods up in a table
--   (Headers/Additions/GNUstepGUI/GSMethodTable.h), which Source/NSGraphicsContext.m fills in for each
--   class of contexts. Operators models them, in groups by the sections of the headers:
--     Operators/Values           arguments, methods and the send of a message
--     Operators/Methods          the table and _initializeMethodTable
--     Operators/Context          the macros that call a function of the table
--     Operators/Creation         initWithContextInfo:, and the dictionary classMethodTable
--     Operators/Dps, Operators/Ps the operators with and without a context argument
--   Source/GSCodingFlags.h describes the words of flags in archives, by structures of bit-fields that
--   are declared once for each order of words. Flags models every structure in a file of its own,
--   with Layout (bit-fields in a word), Coding (the unions) and Words (all structures).
--   Source/NSEvent.m makes the events that Source/GSDisplayServer.m keeps in a queue. Events models them:
--     Events/Types, Events/Record, Events/Accessors  the types and masks, the object, its accessors
--     Events/Kinds, Events/Guards, Events/Created   which structure of its union an event has in use
--     Events/Queue               getEventMatchingMask:, discardEventsMatchingMask:, postEvent:
--     Events/Waiting, Events/Missed                 the search, and its waits in the run loop
--     Events/Discard             the events discarded
--     Events/Ignored             the test in Source/NSWindow.m for a window that ignores the mouse
--   Source/NSCell.m writes the flags of a cell into two words of a keyed archive and reads them. Cells
--   models it, with Coding (both directions, and the font or image for NSSupport), Bits and Fields
--   (words put together by `|`), FirstWord and SecondWord (what the masks read), Actions (the mask of
--   actions), RoundTrip, and Structure (the same word by GSCellFlags).
--   Base has the names, tests and lemmas that they share. The Tests modules apply the theorems to
--   small objects.
--
-- How code and model correspond
--   A method is a function of its object. Where it may raise, the text storage uses the monad M of
--   TextStorage/Store, in which an exception keeps the object as it is by then; the methods of a tab
--   view and those that move a section of a snapshot return `done` or `raised`, each with the object
--   as it is by then, and a lookup by row a value of Returned. Indices and positions that the
--   code keeps as unsigned int are taken modulo 2^32, NSMaxRange modulo 2^64. The dictionaries of
--   attributes are a parameter with decidable equality (Foundation), as are identifiers
--   (Identifiers); a cached dictionary stands for its contents.
--
--   CGFloat and NSTimeInterval are a parameter F, with the comparison of times where one is made. A
--   call that may go through a null pointer has the type Effect, where `none` is that access. What
--   the run loop does while a method waits is a list of rounds: the events posted, whether the loop
--   had an input, and whether the limit date is still to come.
--
-- Bounds and fuel
--   A text has fewer than 2^31 - 1 characters in IsValid, so that no sum of the search wraps around.
--   The binary search has one more unit of fuel than there are runs, and each round leaves fewer
--   runs in the window; the removal in replaceCharactersInRange:withString: has one unit for each
--   run. `indexPath` has one unit for each node up to the root. The wait for an
--   event takes one round for each run of the loop, and has the outcome `waits` where no round is
--   left. NSEventMaskFromType is the mask of types below 31 only, as C leaves the others open. The
--   words of flags have 32 bits. The theorems on the methods of the text storage show that their fuel
--   is enough, as they return.
--
-- What is not modelled
--   How a compiler places bit-fields is taken to be what the branches of Source/GSCodingFlags.h expect. The
--   methods of a graphics context are parameters, as the back ends implement them. The provider block of
--   a collection view may change the data source, call it back or raise, and is not modelled.
--   Archiving, locking, subviews and the responder chain, memory other than the counts of the cache, the string proxy of the text
--   storage, and all that views do with the results: they are input and output.
pub mod Base
pub mod Operators
pub mod Flags
pub mod Events
pub mod Cells
pub mod TabView
pub mod TextStorage
pub mod TreeNode
pub mod Diffable
