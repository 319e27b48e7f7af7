-- ===== src/Lib.antt =====
-- The commands of D-os/cmds: native programs of the Android platform, and the daemons among them.
-- This library models the parts of it whose logic is their own, and proves what they promise.
--
-- Common: tests on numbers, lists measured by native numbers, texts as lists of bytes, masks.
-- CLib: strtol, strtoll and atoi as the sources call them, 64-bit saturation and the 32-bit
--   conversion written out, and the decimal text of a number (%u).
--
-- ServiceManager: servicemanager/service_manager.c and the buffers of servicemanager/binder.c.
--   The file has svclist and its operations (find_svc, do_find_service, do_add_service,
--   svcinfo_death, the walk of SVC_MGR_LIST_SERVICES). A record keeps its address, since a death
--   notice carries it as a cookie. The commands that go to the driver are kept in order. Lookup has
--   what lookups give, Reach the histories of the registry as a step relation, Balance the
--   references held over a history, Registration what an operation does to every lookup. Bio has
--   the readers and writers of struct binder_io; a reader is at a place in the message, and after
--   an overflow at its end. Handler has svcmgr_handler, from the bytes of a message to the bytes of
--   a reply; Handler/Safety, Handler/Replies and Handler/Names are its theorems.
--   Directory says what the registry promises, and Directory/Refined that it keeps it. Parse has
--   binder_parse with the handler and the death notices, over the bytes of the driver's buffer;
--   Parse/Sound and Parse/InOrder are about it. A cookie of a death notice that is the address of no
--   record ends the parsing there with a result of its own, since what the code does is not defined.
--   Arguments stand for what is not in the repository: Aids for the ranges of
--   android_filesystem_config.h, Driver for the constants of the kernel's binder.h, and a value for
--   the memory that malloc gives, or its failure. The functions check_mac_perms and its callers
--   return true in their first line here, so a permission is never refused.
--
-- Preopt: installd/otapreopt_parameters.cpp, the command line of otapreopt. The file has the
--   parameters and their defaults, Arguments the readers ReadArguments, ReadArgumentsV1 and
--   ReadArgumentsPostV1, each of which gives the object as it leaves it and whether it accepts.
--   Request says independently what a command line of each version means; PostV1, V1, Accepted and
--   Number compare the two.
--
-- Bugreportz: bugreportz/bugreportz.cpp. A run is given the results of read(2) in order. Lines says
--   what the lines of a text are, Shown which of them are shown; Copy and Run are about the loop.
--   The text of strerror is an argument.
--
-- Paths: installd/globals.cpp (Globals), and of installd/utils.cpp the names (the file), the paths
--   that are made (Create) and the checks of paths (Validate). Components says what a path means to
--   the file system: its components and where they lead from the root. Confined and Apk show that
--   accepted paths stay in their directories, Separate that users and packages have directories of
--   their own, Packages what a package name is. Profiles has the paths of rollback data and of
--   profiles. Arguments has the checks of installd/InstalldNativeService.cpp, and Plain is about those
--   of paths. Whether the device is debuggable and whether a path is a directory are the argument
--   Device.
--
-- Cache: freeCache of installd/InstalldNativeService.cpp with installd/CacheTracker.cpp and
--   installd/CacheItem.cpp. The file has the items, the trackers, the cache ratio and the queue;
--   Free the loop, one function per turn. What data_disk_free reports, given the items purged so
--   far, is an argument, and the trackers are given as loadStats leaves them. Moves has the turns as
--   a relation, Queue the queue, Ends that the loop ends, Kept and Cleared what is taken, Answers
--   what freeCache answers, Order the order of the items. Tree has loadItemsFrom and purge, over
--   the tree of what fts finds; Loaded and Purge are about the two. Scan has the search for the
--   trackers and loadStats, and Scanned what the search finds.
--
-- Dumpsys: dumpsys/dumpsys.cpp, from what getopt_long makes of the words of the command line to the
--   dumps that main starts. Timeout is about the numbers of -t and -T, Choice about the services.
--   The flags of IServiceManager and the words of PriorityDumper are the argument Platform, and
--   what sm_->listServices gives is an argument too. Words are taken as texts of one unit a byte.
--
-- Rawbu: rawbu/backup.cpp. What the file system holds is a tree, with what fails in it. The file has
--   copy_file, backup_dir and backup_data, Wipe wipe, and Restore the readers and restore_data, whose
--   calls of the kernel are a list; what the kernel answers is an argument. Written says what a backup
--   is, ReadBack and RoundTrip what restoring makes of it, Copy what the rounds of copy_file come to,
--   Untouched what the wiping leaves, and Finishes that the loop of restore_data ends.
--
-- Lshal: lshal/utils.cpp and lshal/TextTable.cpp (the file), and lshal/TableEntry.cpp (Entry). Texts is
--   about the texts, Aligned about the columns of any table, and Columns about the tables that are
--   made of the entries. The texts of libvintf, libhidl and libbase are the argument Libraries.
--
-- Dumpstate: dumpstate/dumpstate.cpp. The file has DumpOptions, its two Initialize and ValidateOptions,
--   Run RunInternal and what it calls for the consent of the user, with what is done as a list of
--   actions; a section of the report is one action. What the calls answer is the argument World.
--   Valid is about the options, Consent about what is copied to the caller, Denied about the cases
--   in which the user has not approved. Progress has Progress and UpdateProgress of
--   dumpstate/utils.cpp, whose floats are the argument Floats; Fair is about what they tell, and Stats
--   about the file of the stats.
--
-- Dexopt: installd/dexopt.cpp. The file has the paths of the compiled files, Move move_ab and delete_odex
--   over the files there are, where what the kernel refuses is the argument Kernel. Compiler has the
--   arguments of dex2oat, RunDex2Oat, where the system properties are the argument System. Inside is
--   about where a compiled file is, Resolved about where its path leads, Gone about what move_ab leaves, Filter about the compiler filter.
--
-- Atrace: atrace/atrace.cpp. The file has the categories and their enabling, Table k_categories, Kernel the
--   settings of the kernel, Userspace those of the processes and of the vendor, Run main. What is done is
--   a list of actions; whether each succeeds is the argument System. Files says what the files of the
--   trace folder hold after the actions. Enabled and Restored are about the events of the kernel,
--   Tagged about the tags, Apps about the list of apps, Functions about the functions that are traced.
--
-- How the parts meet: installd makes the paths of Paths for the services that use them, frees the
-- caches below those paths (Cache), and otapreopt (Preopt) calls into installd's dexopt with the
-- parameters that it read. bugreportz talks to dumpstate over a socket, and dumpsys and the other
-- programs find services by servicemanager.
--
-- Bounds and fuel. decimal has as much fuel as the number and one more, which strtol-decimal shows
-- to be enough. count_loop has the length of its text and one more, which count_subdirs-subdirs
-- shows to be enough. validate_apk_path_internal is given two rounds, and any more rounds give the
-- same. The loop of freeCache has two turns for each item and tracker and two more, which
-- bounce-enough shows to be enough. set_intersection has the length of both ranges, and one more
-- changes nothing. copy_file has its size as fuel, and the loop of restore_data the length of the
-- backup, which copy_file-whole and restore_data-some show to be enough; binder_parse has the size of the
-- buffer, which binder_parse-IsSound shows to be enough. split has the length of its text and one
-- more, which join-split shows to be enough; to_hex_string has 16 digits. All other loops are structural.
-- Numbers of 32 bits are given by the number that has their bits. A path position is the text from there on.
--
-- Not modelled: the ioctl and mmap calls of binder.c; SELinux; logging; the
-- file operations of installd/utils.cpp; the sorting of the items of a tracker; of dexopt all
-- but the paths, move_ab, delete_odex and the arguments of dex2oat, of
-- InstalldNativeService but freeCache and the argument checks, the
-- reading of the trace in atrace, flatland and
-- surfacereplayer, the output of dumpsys, the sections of dumpstate, the main function of rawbu, of lshal
-- what asks the service managers, and the smaller commands.
pub mod Common
pub mod CLib
pub mod ServiceManager
pub mod Preopt
pub mod Bugreportz
pub mod Paths
pub mod Cache
pub mod Dumpsys
pub mod Rawbu
pub mod Lshal
pub mod Dumpstate
pub mod Dexopt
pub mod Atrace
