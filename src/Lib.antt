-- ===== src/Lib.antt =====
-- Models of the C programs of this repository: the weekly exercises of a course on systems
-- programming. The programs do not share code across their directories; each part below is a program
-- or the data structure of one, and a file of the library models the source file that its first line
-- names.
--
-- Vector       ps3/vector.c: the growable array, on blocks of memory with a size in bytes.
-- VStack       ps3/VStack.c: a stack that calls the array.
-- HashMap      lab9/hashMap.c, a table of buckets, and lab9/dllist.c, the sorted list of each bucket.
-- Strcmp       strcmp of the C library, which HashMap and WordTree compare by.
-- WordTree     lab4/tree.c: a search tree of words, the loop that fills it and the search.
-- TreeMt       ps8/treeMT.c: a search tree of integers; an insertion by itself, and in Threads several at
--              once with their locks.
-- Tokenizer    lab4/debug.c: counting and cutting out the tokens of a string.
-- Calendar     ps2/calendar.c: days of months and first Mondays.
-- Union        lab5/union.c: tagged unions and their comparison functions.
-- Guess        ps9/guess-mt.c and ps9/pclock.c: two threads that play a guessing game; Waiting adds their
--              sleep on the condition variable and the signals.
-- Philo        final/philo.c: the dining philosophers. Numbers, Locks and Owners say what a step does to the
--              forks, Left how far a thread is from its end, Safety, Progress and Ending what holds in every
--              run, Edge what one philosopher or no cycle leads to.
-- Pipes        lab6/pipes.c: a message through two children.
-- Shell        ps5/shellp.c: Line reads a line, Redirect takes out the redirections, Words and Command
--              cut the words and build the command, Pipeline wires the stages of a pipeline, Spawn
--              makes their processes, Handed, Kept and Piped say which files these get and what the shell
--              keeps, Execute runs a command.
-- FileServer   ps6/client.c, ps6/server.c and ps6/command.c: Client and Server are the two sides, Files the
--              calls for files, Spec and Session a session against its specification. Calls, Serve and Ask
--              say what each side does when every call moves all bytes, Pending what the server still has
--              to read, Loops and Partial what the loops do with other answers of the kernel.
-- LinkedList   ps3/list.c: the list on a heap of nodes. Chain and Frames say what a list in the heap is and
--              what a write leaves of it, Ends and Back are the pushes and pops, Place, Insert and Sort
--              the sort, Free the end of the list, and Deque is the list as its clients see it.
-- SqlServer    mt2/Q2client.c, mt2/Q2service.c and mt2/Q2server.c: Lines is the client's input and output,
--              Service the end of the server.
-- LockedList   lab10/dllist.c: the sorted list with a lock for each node. Links says what a list in the memory
--              is, Retie and Insert what the writes of an insertion make of it, Places, Threads, Together and
--              Runs what several threads do at once, and Progress that they do not wait in a circle.
-- ListQueue    ps3/LStack.c, a stack that calls the list, and ps3/queue.c, the queue of two such stacks.
-- Buffer       lab8/buffer.c, the ring, and System, the processes of lab8/prog1.c and lab8/prog2.c with
--              their semaphores.
-- MatrixMult   ps7/matrix.c and ps7/main.c: the product of two matrices, in one process and in several; File
--              reads and prints a matrix.
-- MatrixDet    final/matrix.c: the determinant, in one thread and in several.
-- Kadane       lab3/kadane.c: the greatest sum of a subarray.
-- PowerMod     ps1/powerMod.c: powers modulo a number.
-- Base         shared names, tests, lists, options, integers and sorted lists.
--
-- A C function keeps its name, in small letters with underscores: `pushBackVector` is
-- `push_back_vector`. A function that changes an object through a pointer takes the object and returns
-- it. A fault (an access outside a block, a failed assert, NULL passed to strcmp, a signed overflow)
-- is `none`. Characters and words of memory are natural numbers with the wrap-around written out; an
-- `int` that may be negative is an integer. A string is the list of its characters before the NUL;
-- Shell.Words and Shell.Command keep the whole buffer, with its NULs, and indices for pointers.
--
-- Fuel: extract_redirect has one round more than the buffer has characters, skip_ws and cut_word one
-- round per character of the buffer, and so have the loops over words, since every round moves on by
-- at least one character. The loops of the vector, the calendar and the tokenizer run a number of
-- rounds that the source computes before. The rounds of `play` are 24: the interval of a thousand
-- numbers is halved at each guess. A step of Guess is a whole critical section, since all of the
-- shared object is read and written under the lock; a step of Philo goes from one lock or unlock to
-- the next.
--
-- The loops around `send` and `recv` go through the list of the kernel's answers, and wait when it ends;
-- handle_new_connection has one round more than there are bytes for it, and each round takes a command.
--
-- The recursion of det_from has one round more than the matrix has columns, since each minor has one
-- column less; the loops over a list have one round more than its length, and powmod_from one round more
-- than `x`.
--
-- Interleavings: the children of matrix_mult_par write to cells of the result, and a schedule is an order
-- of all writes that keeps the order of each child. A step of Buffer goes from one semaphore to the next:
-- what stands between sem_wait and sem_post of a lock is one step. A step of TreeMt.Threads is the look at
-- a node and the move of the lock to its child, or the write of the new node. A step of LockedList takes
-- the lock of the next node and gives back the one before, or it is the whole insertion: the fields that
-- it reads and writes are those that the lock guards.
--
-- The session of FileServer lets the server go on when the client waits and behind its end. It does not
-- read while the client still sends.
--
-- Not modelled: printing (but what LockedList, MatrixMult and the clients print), freeing (but in
-- LinkedList) and the operating system, whose answers are parameters of Shell.Execute, of
-- Shell.Spawn (whose table of descriptors is an interface, and where `fork` and `execvp` answer the same
-- for a stage in every process that spawns it), of setup_buffer in Buffer, of SqlServer (what `poll` reports and how many bytes a call moves) and of
-- FileServer, whose file system and byte order are interfaces (a file can always be written, and does
-- not change while it is sent); `strtol` and `printf`, which are parameters of MatrixMult.File;
-- setting up sockets, and the loops that accept and fork; a malloc that fails; the bounds of `int`
-- where the values are small (lengths, counters). Only LinkedList, ListQueue and LockedList have a
-- heap, where a freed address is not given out again; the lists of HashMap and the trees stand for
-- the nodes they reach. The `int` arithmetic of matrices is that of runs without overflow. The other directories hold programs that mostly call the operating system, count in
-- floating point or print.
pub mod Base
pub mod FileServer
pub mod Guess
pub mod Calendar
pub mod Tokenizer
pub mod Union
pub mod Strcmp
pub mod HashMap
pub mod WordTree
pub mod TreeMt
pub mod Shell
pub mod MatrixMult
pub mod MatrixDet
pub mod LinkedList
pub mod LockedList
pub mod SqlServer
pub mod Kadane
pub mod PowerMod
pub mod Buffer
pub mod ListQueue
pub mod Pipes
pub mod Philo
pub mod Vector
pub mod VStack
