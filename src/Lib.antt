-- ===== src/Lib.antt =====
-- libmccr reads magnetic stripe cards with MagTek readers over USB HID, through the library hidapi;
-- common holds the conversions of bytes to text that it shares with the tools: mccr-cli on the command
-- line and mccr-gtk with windows. This library models libmccr, common, mccr-cli and, of mccr-gtk, what is
-- behind the window and two of its pages.
--
-- How the parts fit together, with paths from the root of the repository:
-- * src/libmccr/mccr-hid.c parses the report descriptor of a reader. Hid/Usages is its growing array of
--   usages (append_to_usage_array and the like), Hid/Context the context that parsing makes, with its
--   reference count and getters, Hid/Parser the walk over the items (parse_report_descriptor and a
--   function for each process_... and parse_...), Hid/Reports the layout of the reports (process_report)
--   and mccr_parse_report_descriptor. Hid/Parser/Items says what a descriptor is as a list of items.
-- * src/libmccr/mccr-feature-report.c is FeatureReport: the two buffers in which a command travels to
--   the reader and the answer back. FeatureReport/Command has the codes of the commands.
-- * src/libmccr/mccr-input-report.c is InputReport: the loop that waits for a swipe.
-- * src/libmccr/mccr.c is Device (creation, references, open, close), Device/Enumerate (enumeration),
--   Device/Commands (the commands, those that copy
--   an answer in Device/Commands/Copied), Device/Names and Status (the texts), and SwipeReport (waiting for a
--   report and the getters of its fields).
-- * src/libmccr/mccr-usb.c and src/libmccr/mccr-raw.c, of which the configuration builds one, read a
--   descriptor: DescriptorReader/Usb and DescriptorReader/Raw. src/libmccr/mccr-log.c is Log.
-- * src/common/common.c is Common: strhex, strhex_multiline, strbin, strascii.
-- * src/mccr-cli/mccr-cli.c is Cli: Cli/Options (the options and their checks), Cli/Main (main and the
--   list), Cli/Lines, Cli/Show and Cli/Swipe (the actions that print).
-- * src/mccr-gtk/mui-processor.c is Processor: Processor/Texts and Processor/Properties
--   (load_device_properties),
--   Processor/Swipe (run_wait_swipe), Processor/Command (run_command), Processor/Queue (the operations
--   and the queue), Processor/Order (the loop of the thread) and Processor/Threads (the steps of the two
--   threads).
-- * src/mccr-gtk/mui-remote-service-utils.c is RemoteService: RemoteService/Request (the build functions)
--   and RemoteService/Response (the loops over nodes, the structures, the parse functions);
--   src/mccr-gtk/mui-remote-service.c is RemoteService/Service.
-- * src/mccr-gtk/mui-page-basic.c is BasicPage (the keys and the decryption of the tracks) with
--   BasicPage/Events (its making and what happens to it).
-- * src/mccr-gtk/mui-page-remote-services.c is RemotePage (its state and the rows), RemotePage/Keys (the
--   list of keys and the update of a key), RemotePage/Commands (the list of commands and the run of one),
--   RemotePage/Privileged (build_test_privileged_command), RemotePage/Events (clicks, dialogs, answers,
--   items and resets as steps) and RemotePage/Settings (store_settings, load_settings and the timer).
-- A device that is opened parses the descriptor into a context and makes a feature report from it; a
-- command resets the feature report, sets a request and exchanges it; a swipe report shares the context
-- of its device by reference count, and finds its fields with it. The command line tool opens a device,
-- runs one action on it and disposes of it. The processor owns a device and runs on it, in a thread of its
-- own, the operations that are pushed to its queue; a command for it is written in hexadecimal, which
-- common reads. The remote service gives such commands, in messages of XML. The processor reports items to
-- the pages; the basic page decrypts the tracks among them, and the page of the remote services asks the
-- remote service for keys and commands and has the processor run them.
--
-- How the code is modelled. A call of a C function comes to a value, a failed `assert`, an access
-- outside an object, or a loop that was given too few rounds (Run, in Prelude/Outcome). Objects are lists
-- of bytes, read and written with bounds (Prelude/Memory). An allocator answers every request for
-- memory by its number and size, so a theorem for all allocators covers every pattern of refusals.
-- Contexts, which devices and swipe reports share, live in a heap of addresses; what only one object
-- points to is a field of it. Sizes are natural numbers, with the wrap-around of uint32_t, size_t and int
-- written out where the code computes with them. What is printed or shown is a list of texts, made of
-- literals, bytes and numbers that are still to be formatted (Prelude/Text). Calls of one thread are
-- modelled, but for the queue of the processor; atomic counts are plain ones. A page is a record of what its
-- widgets show and of its private state. What the page of the remote services asks others for is a list in its
-- state, and so are the calls whose answers it waits for; a dialog that is open is the row it is about.
--
-- Parameters. hidapi (Hidapi), libusb, the calls of the kernel, libxml2, libsoup, libdukpt (Dukpt),
-- GKeyFile (KeyFiles), getopt_long and the other functions of the system that the two programs use
-- (Environment) are parameters; the documented behaviour of hidapi is the hypothesis IsHidapi and that of
-- libusb IsLibusb. mccr_device_open takes mccr_read_report_descriptor as a parameter too.
--
-- Bounds. The walk over a descriptor has a round for every byte and one more, as each round moves on by
-- a byte or more; the loop that receives a report has a round for every byte of it and one more, as every
-- round but the last reads a byte. The doubling of an array has as many rounds as the items it needs.
-- Two loops count in 32 bits up to a number that has 64 (process_report_count and find_device): where the
-- counter would wrap around they do not end, and the bounds on a descriptor and on the devices keep it below.
--
-- Not modelled: the messages of the log; the texts of the help and of the version; a refusal of g_malloc,
-- which ends the process, and of strdup on the arguments of the command line; the disposal of what
-- libxml2 and GLib allocate; the timer of the processor's thread; the look of the pages, the texts of the rows
-- and of the dialogs and the disposal of src/mccr-gtk/mui-page-remote-services.c; mui-window.c, mui-page.c, mui-page-advanced.c,
-- mui-app.c and mccr-gtk.c of src/mccr-gtk, which mostly call GTK.
pub mod Prelude
pub mod Status
pub mod Hid
pub mod Hidapi
pub mod FeatureReport
pub mod InputReport
pub mod Common
pub mod Device
pub mod Dukpt
pub mod BasicPage
pub mod RemotePage
pub mod SwipeReport
pub mod Environment
pub mod DescriptorReader
pub mod Log
pub mod Processor
pub mod Cli
pub mod RemoteService
pub mod Tests
