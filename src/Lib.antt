-- ===== src/Lib.antt =====
-- Models of witOS, a small operating system for boards, and proofs about them.
--
-- lib/std/string.c is Str and its children, over the byte memory of Memory: an address is a number,
-- a loop that runs to a NUL takes fuel. The theorems give the fuel that is enough: one round more
-- than the text has bytes. Pointers do not wrap at the end of the address space.
--
-- lib/extra/getopt.c is Getopt: argv is the list of its texts, and the variables of the file are a record.
-- Words are the command lines that it is meant for and the loop of its callers. The inner loops
-- count down the rounds that are left, which their bounds give.
--
-- core/sysconf.c is Conf: the configuration is a list of bytes, and each round of the search takes at least
-- one of them. Lines are the texts that it is meant for, Found what conf_get_attr gives for them by its own
-- tests, and Meaning what they say.
--
-- lib/extra/strex.c is Strex: Hex, Dec, Ip and Size, over lists of bytes. The loops that
-- fill a buffer from its end take the room of the buffer as fuel, and the theorems show that it is
-- enough.
-- ip_to_str and str_to_mac are not modelled.
--
-- mm/heap/malloc.c is Heap and its children, over a memory of words. The doubly linked free list is
-- modelled by the list of its regions, beside the memory, so that a client's write into a free region does
-- not break it here; zalloc and dma_alloc_coherent are not modelled. The theorems
-- read the tags in memory as a row of blocks.
--
-- driver/net/core/net.c and lib/net/socket.c are Net: Checksum the Internet checksum, Types the
-- structures, Table the table of sockets and its searches, Send the senders of TCP and UDP byte by
-- byte, Deliver their receivers, Calls the calls that wait for segments. The table of the 32 sockets
-- is a function of the descriptor; a socket is shared by the calls and the receivers through it.
-- ndev_poll delivers the packets that a World lists, poll after poll; tcp_wait_for_state makes at most
-- 100 polls, so nothing else bounds the calls. Machine has the diagram of the states. Receive has the
-- calls on datagrams and queues, Ports what bind does for the searches, and Arp the ARP layer with gethostaddr; there a list has what each
-- call of ndev_poll does, one round each, and the loops have the turns that the code counts. Ip has
-- ip_send_packet, the link layer, netif_rx and ICMP over the bytes of frames, and Delivery what one host
-- gets of another's; the calls themselves stop at what they hand to ip_send_packet, with the link
-- address of the peer known. The drivers are not modelled.
--
-- shell/shell.c is Shell: Line the editing keys of command_read_line over the byte memory, Editor and
-- Typing the text with a gap at the cursor that they are compared with; Translate
-- command_translate with its buffer, Words, Steps and Splitting what it makes of a line. History, completion
-- and the decoding of escape sequences are not modelled.
--
-- fs/core and fs/ramfs are Fs: Store the dentries, inodes and mounts, Walk path_walk and its lookups,
-- Dirs the directories and mounts, Files the table of open files, Ramfs the RAM file system that fills
-- the tables of operations. A pointer is a number in a store, zalloc does not fail, and a read
-- through NULL is no result. path_walk has as many rounds as its text has bytes and one more;
-- sys_getcwd takes the number of its rounds. The names of a path (Names), the way from the root to a
-- directory (Place) and the table of descriptors (Handles) are what the code is compared with. Listing
-- is opendir and readdir of ramfs, without the numbers of inodes. ioctl, getdents, devfs and the block
-- devices are not modelled.
--
-- lib/uart/kermit.c is Uart: Kermit the loader over the bytes of the line, Sender the packets that the
-- protocol defines for the other side. A round of the loop takes at least one byte, and the bytes
-- of the line bound the rounds. The image types and the open file are parameters.
--
-- lib/uart/ymodem.c is in Uart too: Ymodem the loader over the bytes and timeouts of the line, which bound
-- the rounds, and over the bytes of struct loader_opt from its file_name to its dst; Blocks what the
-- other side sends, Rounds and Blockwise what the loader makes of it.
--
-- lib/net/tftp.c is Tftp: Packet the packets as bytes, Download and Upload the two transfers over the
-- datagrams that recvfrom gives, one round each, so nothing else bounds them; Received and Sent what a
-- server makes of the other side. Client has tftp_download and tftp_upload with the calls of the socket
-- layer around the transfers, and Refused what becomes of them: bind refuses their address, so that the
-- program as it stands does not come to the transfers. The result of open is an argument, the image types
-- and the ioctl are parameters.
--
-- Base has what the parts share: tests, lists, integers, bit operations and words.
mod Base
pub mod Memory
pub mod Str
pub mod Conf
pub mod Getopt
pub mod Strex
pub mod Heap
pub mod Net
pub mod Shell
pub mod Fs
pub mod Uart
pub mod Tftp
