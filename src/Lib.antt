-- ===== src/Lib.antt =====
-- SO-Project-C simulates an operating system with four processes that talk over sockets: the kernel
-- plans processes, the CPU executes their instructions, the memory keeps their scripts, page tables
-- and bytes, and the interfaces of entradasalida move bytes in and out. This library models what they
-- say to each other, the memory, the CPU, the kernel and the file system of the interfaces.
--
-- Protocol (utils/src/utils): the packets. A connection is the list of the bytes still to be
--   received, an int or a uint32_t is four bytes with the lowest first. Codes has the enumerations,
--   Packet the sending side and Receive the receiving side of general_protocol.c, Fields the reads of
--   one field, Pcb pcb_protocol.c, Mem mem_protocol.c, Io io_protocol.c; Io/Trip and Io/Files have
--   what is sent beside what is received. A read beyond a buffer or a connection that closes inside a
--   message is none, since the code does not look for it. The loops of recibir_paquete and of the
--   frames take four bytes or eight in a round, so their fuel is the number of bytes.
-- Memory (memoria/src): State is the global state of main.c (page size, bitmap, user memory,
--   dictionary of processes) with the operations of usuario.c, Frames is resize_up and resize_down,
--   Scripts is proceso.c, Server is memoria.c: the switch, and its loop over one connection. Frames/*
--   has what each operation does to a bitmap and a page list, Ownership the invariant of the whole
--   memory and what follows from it, Server/Invariant and Server/Replies what requests do, and
--   Server/Runs the memory from its start on, under requests of any connections. Requests
--   are taken one at a time. The code locks each table by itself, so two threads could also meet
--   between the tables of one request; that is left out. The reading of a
--   script of n bytes has n + 1 rounds of fuel, which is enough except where the code never ends. A
--   process that does not exist, whose NULL the code follows, is none.
-- Cpu (cpu/src): Tlb and Mmu are mmu.c, Registers is auxiliar.c with the arithmetic of instructions.c,
--   Decode is mapInstruction and decode, Service is instruction_protocol.c over an interface to the
--   memory process, which Memory fills, Requests and Instructions are instructions.c, and Exec is
--   exec and the loop of cpu.c. Tlb/* and Mmu/Translate have the TLB against the page tables,
--   Requests/Received what the kernel makes of a request. mmu
--   calls itself once a page and takes a byte at least each time, so the size and one more is enough
--   fuel. The loop of cpu runs for as many rounds as interrupts are listed; a program may never end.
-- Kernel (kernel/src): State is the globals of main.h, with cambio_estado, finalizar_proceso and the
--   start of a process; a pointer to a process block is the pid of the process, which names a block in
--   a store, so the block that corto_main goes on with and the one in a queue are the same. A
--   semaphore is its count, and a scheduler or an interface holds the posts that it took while it waits
--   on. Corto is corto_plazo.c, Largo is largo_plazo.c, exit_proceso.c and
--   quantum.c, Interfaces is io.c, Consola is consola.c. A wait on a counting semaphore is a function
--   of its own, and each other function is what a thread does from check_plani, from an answer or from
--   a command to its next such wait; it is none while it waits. The locks of the queues are what makes
--   it one step; a stop that comes between check_plani and the work behind it counts as coming later. A thread that
--   follows the NULL of an empty queue has no step. Hilos has the steps of all threads as a
--   relation. Cuentas counts processes by place, Conserva, Vuelta and Pasos have what each step keeps,
--   Lugares what follows for one process and for the degree, Semaforo the resources as counting
--   semaphores, Errores the ends of a process, Vrr the quantum. The packets that the steps send
--   and receive are those of Protocol.
-- Fs (entradasalida/src): Bitmap is the searches and the runs of auxiliar.c, Files the creation,
--   deletion, reading and writing of dialfs.c, Truncate its truncation with the compaction, Dialfs its
--   loop. The metadata is the list of the files' path, first block (-1 is none) and size; the copies
--   that are saved to the disk repeat the state. The size of a truncation and the position in a file
--   are an int; a truncation to one block below 0 or less is outside the model (none), since the code
--   then clears the bits in front of the file and stores a negative size. The model is for disks of
--   fewer than 2^31 bytes, whose sizes an int can hold. Bitmap/* has what the searches find and what the runs
--   change, Ownership and its modules the blocks of the files against the bitmap, Compact and Compacted
--   in it the compaction, for a list_sort that only changes the order. The search of a run
--   goes on by at least one bit in a round, so the number of bits is enough fuel.
-- Common: Boolean tests, lists over native numbers, machine words and reads, the int that a uint32_t
--   is stored in, memcpy, the dictionary and the bit array of so-commons (the latter an interface with its documented laws, filled by
--   indexed_bits), and how often a number occurs in a list.
--
-- Parameters, since their code is elsewhere: the bit array, the files that fopen finds, string_split,
-- string_contains, string_replace, list_sort, strtoul, what malloc leaves in a buffer. Not modelled:
-- sockets, configuration, logs, the start of threads, the words of a console command, the listing of
-- the processes, the sleeps and the terminal of the other interfaces.
pub mod Common
pub mod Protocol
pub mod Memory
pub mod Cpu
pub mod Kernel
pub mod Fs
