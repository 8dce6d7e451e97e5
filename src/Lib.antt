-- ===== src/Lib.antt =====
-- libb2 is a C++ rewrite of the BeOS/Haiku kits (application, storage, support, interface) over a
-- POSIX kernel kit. These files model parts of the kits that carry data and synchronisation.
--
-- Parts and files
--   BMessage, kits/app/Message.cpp and headers/app/Message.h: a message is a code and a list of
--     nodes (a name, a type, the items). Message models the nodes and the calls on data of any type
--     (AddData, ReplaceData, FindData, CountNames, MakeEmpty, the copies); Message.Typed the calls on
--     strings, numbers and messages, which go through the calls on data; Message.Flat Flatten,
--     FlattenedSize and Unflatten. Message.Lookup, Message.Fields, Message.Copy, Message.Built and
--     the modules called RoundTrip, Encode and Decode prove theorems about them.
--   BLocker, kits/support/Locker.cpp: Locker, a step relation over any number of threads, each at a
--     point of Lock, LockWithTimeout or Unlock. Locker.Invariant and Locker.Safety are the proofs.
--   BPositionIO, BMemoryIO and BMallocIO, kits/support/DataIO.cpp: DataIo, DataIo.Memory and
--     DataIo.Malloc; the functions Read and Write take the virtual functions as a record.
--   BPath, kits/storage/Path.cpp: Path; Path.Normal relates _MustNormalize to the components of a
--     path, and Path.Valid is the invariant of the class. The references of entries come
--     from BEntry behind an interface; _kern_entry_ref_to_path is in Path.
--   BMimeType, kits/storage/Mime.cpp: Mime. Mime.Format relates IsValid to the form of a type, and
--     Mime.Supertype is about the objects.
--   BMessageQueue, kits/app/MessageQueue.cpp: Queue, with Queue.Order on sequences of calls.
--   BList, kits/support/List.cpp: BList, with BList.Items on where items go and are found.
--   BString, kits/support/String.cpp: BString, BString.Editing for insertion, removal and copies, and
--     BString.Chars for the calls that count characters; Utf8 for kits/support/utf8_functions.h.
--   BHandler and BLooper, kits/app/Handler.cpp and Looper.cpp: Looper has the handlers of all loopers;
--     Looper.Loop the messages of one looper, which it takes from the calls of Queue; Looper.Wakeup
--     the thread of a looper and those that post to it. Looper.Members, Looper.Reach,
--     Looper.Loop.Drain and Looper.Wakeup.NoLoss are the proofs.
--   BView, kits/interface/View.cpp: View is the tree of views outside of a window, a doubly linked list
--     of children through the members of the views. View.Chain is on segments of such a list,
--     View.Children on what AddChild and RemoveChild leave of the lists, View.Walk on the loops that
--     count the children and find one, View.Coordinates on the conversion to the screen,
--     View.Frame on the place and the size of a view.
--   BMenu, kits/interface/Menu.cpp: Menu is a finite tree of items and submenus with the search for an
--     item; Menu.Preorder compares the search with one in a list. Menu.Marks has the marks of the items
--     of one menu (with kits/interface/MenuItem.cpp) and the search for the next item; Menu.Radio and
--     Menu.Next are the proofs.
--   BTabView, kits/interface/TabView.cpp: TabView has the tabs, the selection and the focus;
--     TabView.Marked, TabView.Select and TabView.Reach are the proofs.
--   The calls of kits/kernel/syscalls.c on descriptors, over POSIX: Storage, with the table of open
--     descriptors in Storage.Table. BEntry, kits/storage/Entry.cpp: Storage.Entry is one turn of the
--     loop of _SetTo, Storage.Entry.Calls the loop and the calls; Resolve, Owner, Reach and Leaf are
--     the proofs. BNode, kits/storage/Node.cpp: Storage.Node, with Storage.Node.Closed.
--   The ports of kits/kernel/port.c: Port has the table and its lock (kits/kernel/rwlock.c), Port.Calls
--     the calls over an interface of sockets; Ends, Locking, Sequence and Order are the proofs.
--   The lock of kits/kernel/rwlock.c with any number of threads: RwLock, with RwLock.Exclusion.
--   BRect and BPoint, kits/interface/Rect.cpp and Point.cpp: Rect, with Rect.Intersection on the
--     intersection and containment.
--   Prelude holds what these share: lists over the native numbers, status codes (Prelude.Status, for
--     headers/support/Errors.h), integers (Prelude.Int), bytes of memory (Prelude.Bytes,
--     Prelude.Splice) and functions from threads (Prelude.Threads).
--   The parts meet in the status codes and in the bytes of memory. BLooper keeps its handlers in a
--   BList and its messages in a BMessageQueue, which locks itself with a BLocker.
--
-- Conventions
--   A pointer argument that may be null is an Option, or a Bool where its target is not read. A copy
--   from or to memory is one on a list of bytes, and one outside the list is a fault. malloc,
--   realloc and new are a parameter that says which sizes are granted. A C string is the list of its
--   bytes before the NUL. Numbers in flattened messages are little-endian, as on the machines that
--   the build supports. Fixed-width numbers keep their wrap-around where the code relies on it.
--
-- Bounds and fuel
--   The outer loop of Unflatten takes fuel, one for each byte of the buffer and one more: each turn
--   reads at least one byte. The loop that drains the queue of a looper takes one more than the
--   messages in the queue, where the handlers post none. The loops along the children of a view take
--   as many steps as there are children, and the way up to the screen as many as there are ancestors.
--   The loop of BEntry::_SetTo takes two turns for each symbolic link that it may follow and two
--   more. B_MAX_SYMLINKS, B_PATH_NAME_LENGTH and B_FILE_NAME_LENGTH are those of Linux.
--   The loop of write_port_etc takes 50 turns without a timeout, as the retries are counted; with one
--   it goes on as long as poll says that the socket is ready, and takes fuel, like port_count.
--   Every other loop is structural recursion over a list or a count.
--   The counts of BLocker wrap like an int32; the theorems are about runs in which they stay below
--   2 ^ 31 - 1 and only a thread with the lock calls Unlock. The word of a lock of readers and writers
--   is a number without a bound. Sizes and positions of the data classes are below 2 ^ 63.
--
-- Not modelled
--   The windows and the other controls of the interface kit, the views in a window, what draws over Skia,
--   the application and roster classes, files and directories of the storage kit, the rest of the
--   kernel kit in C, the services and the tests. The semaphores of the kernel kit, the system and
--   the C++ library stand behind parameters. In BMessage, reply and delivery are left out.
pub mod Prelude
pub mod Message
pub mod Locker
pub mod DataIo
pub mod Path
pub mod Mime
pub mod Queue
pub mod BList
pub mod Rect
pub mod Utf8
pub mod BString
pub mod Looper
pub mod View
pub mod Menu
pub mod TabView
pub mod Port
pub mod RwLock
pub mod Storage
