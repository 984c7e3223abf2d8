-- ===== src/Lib.antt =====
-- The system programs under SP/ of the repository and libraries beside them: models of their code and
-- the theorems on them.
--
-- Parts and files
--   SP/task4, the wolf, the goat and the cabbage over message queues. River/Message is include/msg.h.
--   River/Server is server/main.c: the list of sessions and every message sent are the record
--   `Server`, each handler is a function on it with the name that it has in C, `dispatch` is the
--   switch of `main`, and `serve` runs the loop over the messages that `msgrcv` delivers, in any
--   order. River/Client is client/main.c: `parse_cmd_list` reads the command list, `client` is `main`
--   from the registration on, against any outcomes of SEND and RECV. River/Match plays the client's
--   command list against the server: the exchanges are what the server's outbox holds.
--   SP/task2, a tool for files. Files/Kmp is find_string.c, Files/Blocks is `xor_blocks`, Files/Mask
--   is `count_masked_numbers`, and Files/Copy is copy_file.c and the names of the copies; the last
--   three parts are called by main.c.
--   SP/task3/main.c, the dining philosophers: Philosophers. A `Table` is the five semaphores of the
--   forks, the one of the room and each child's place in its loop; `turn` is one `semop` of a child,
--   and `Reach` the tables reached by any order of turns, with their number.
--   SP/task5/main.c, the bathroom: Bathroom. A `Hall` is the shared variables and the threads; `turn`
--   is one critical section of a thread, and `Reach` the halls reached by any order of turns.
--   Bathroom/Number is the reading of the argument.
--   SP/task1, users with sanctions. Users/Vector is vector.h and vector.c, Users/Dates is
--   `ValidateTime`, Users/Commands is the handling of a command of a user who is logged in, and
--   Users/Login is the registration and the login.
--   SP/task6, a server that lists directories. Listing/Wire is the length and the string on the
--   socket, Listing/Server is server/main.c, and Listing/Client is client/main.c. The calls of the
--   file system and the socket are the records `System` and `Calls`.
--   arithmetic/big_integer, numbers of any size. Arithmetic/Digits is the loops of src/big_int.cpp on
--   vectors of digits, Arithmetic/BigInt the record `BigInt` with the operations on it,
--   Arithmetic/BigInt/Division `/=` and `%=`, Arithmetic/BigInt/Parse the constructor from a text, and
--   Arithmetic/BigInt/Print `to_string`. A vector is a list with the lowest digit first.
--   arithmetic/fraction, fractions of big integers. Arithmetic/Fraction is `gcd`, `optimise` and the
--   four operations of src/fraction.cpp, with integers in place of `big_int`, and with what `big_int`
--   answers to a factor of more than 32 digits as a parameter, since it multiplies that by Karatsuba.
--   The two operands are different objects.
--   allocator/allocator_sorted_list, an allocator on one piece of memory. Allocator/SortedList is
--   src/allocator_sorted_list.cpp: `Allocator` is the fields in front of the blocks, `Memory` the
--   headers by address, and `allocate` and `deallocate` are do_allocate_sm and do_deallocate_sm. Its
--   children prove them against a list of free and occupied blocks (SortedList/Blocks).
--   associative_container/search_tree/binary_search_tree, ordered containers as C++ templates.
--   SearchTree is include/binary_search_tree.h: a tree of nodes with the chain of their parents, its
--   rotations, `insert`, `insert_range`, `insert_or_assign` and `go_to_node_with_key`; SearchTree/Infix
--   and SearchTree/Prefix are its infix and prefix iterators. SearchTree/RedBlack, SearchTree/Avl and
--   SearchTree/Splay are the `post_insert` of the derived trees. SearchTree/Derived states what the base class needs of them:
--   each derived tree fills its record, and the theorems on `insert` follow from it. Keys are any type
--   with the laws of an order (SearchTree/Order).
--   Libc holds what the programs use of C's string functions; Base holds what all files share.
--
-- Reading
--   Bytes are numbers below 256 where a theorem says so; a string is its bytes without the final NUL.
--   A result NULL is `none` or a constructor of its own. What a call outside the repository returns
--   (`malloc`, `realloc`, `msgsnd`, `msgrcv`, `fwrite`, the clock) is an argument.
--
-- Bounds and fuel
--   `compute_lps` runs on a fuel of twice the pattern's length and one, its inner search loop on the
--   index and one, the block loops on the file's length and one, and
--   `process_client` on the stream's length and one. The theorems on them state a result,
--   so the fuel is enough. The philosophers have the source's five seats and three rounds. The
--   bathroom's theorems hold for any number of threads, of which the source creates ten of each kind.
--   `StringToInt` converts to `int` modulo 2^32. The search for a digit of a quotient runs on a fuel
--   of 34, one more than its rounds, and `to_string` on more than the number itself. `gcd` runs on its
--   second number and one, and the loops over an iterator on the number of pairs and one. The loops
--   of the allocator run on a fuel that exceeds the number of blocks. `xor_blocks` answers `none` where
--   a block has more bytes than its buffer of eight. In the allocator a request is below 2^64 - 16,
--   since beyond it the sum with a header wraps. The heights of the AVL tree are numbers without a
--   bound, which a tree in memory does not reach.
--
-- Not modelled
--   Printing, the system calls that create queues, semaphores and threads, and the errors of those
--   calls. Of SP/task1/main.c the menu and the file of users; of
--   SP/task2/main.c the flags and the forked processes; of SP/task6 the set-up of the sockets; and
--   SP/task7. Of arithmetic/big_integer the bit operations, `>>=` and the multiplications by Karatsuba
--   and by Schonhage and Strassen. Of arithmetic/fraction `<=>`, the texts, the powers, the
--   roots and the series. Of allocator/allocator_sorted_list the mutex, the logger
--   and the destructor. Of the search trees `erase`, the bounds, `split` and `merge`, the
--   postfix iterators, copies and moves. The scapegoat tree, associative_container/hash_table and
--   arithmetic/continued_fraction are not implemented in the source. The other C++ libraries (the
--   other allocators, associative_container/search_tree/indexing_tree, logger, common) are not part
--   of this model.
pub mod Base
pub mod Libc
pub mod River
pub mod Files
pub mod Philosophers
pub mod Bathroom
pub mod SearchTree
pub mod Users
pub mod Listing
pub mod Allocator
pub mod Arithmetic
