-- ===== src/Lib.antt =====
-- The recording agent's programs that keep data on the drives of a locomotive recorder.
--
-- Parts and files
-- metarec records metadata. Message handlers (metarec/src/ptc_meta_intf.c, Metarec/Ptc.antt) turn
-- PTC messages into descriptors, which metarec/src/metaintf.c (Metarec/Intf.antt) puts into the ring
-- of metarec/src/metaqueue.c (Queue.antt). The recording thread of metarec/src/metaio.c
-- (Metarec/Io.antt) takes them out, and metarec/src/metachunk.c (Metarec/Chunk.antt) gives it the
-- chunk files that they go to. Metarec.antt holds the descriptors, Metarec/Recorder.antt the state of
-- the thread. metacollector reads the chunk files again: metacollector/src/metareader.c is
-- Metacollector/Reader.antt, metacollector/src/metawriter.c is Metacollector/Writer.antt. The space
-- monitor (space_monitor/src/ra_space_monitor.c; SpaceMonitor.antt, SpaceMonitor/Groom.antt) deletes
-- the oldest files of a drive. The list of recordings (recording_list/src/camera_recordings.c;
-- Recordings.antt) prints the recorded segments of each camera. Storage.antt holds what the last two
-- share: directory trees, paths and the times in file names.
-- The recorder's host watches the power, the drives, the door and the discrete inputs
-- (host_utils/ra_video_rec/event_control/event_control.c, EventControl.antt): EventControl/State.antt
-- is its state, EventControl/Drives.antt the drives and the door, EventControl/Discrete.antt the
-- inputs and what they do to cameras, EventControl/Poll.antt the pass check_for_event. It sends
-- READY_STATUS, SHUTDOWN and CAMERA_RECORD_PAUSE to the remote agent, whose recording of cameras
-- (reagent/src/ptc_intf.c, Agent.antt) is Agent/State.antt for the state, Agent/Record.antt for
-- starting and stopping recording processes, Agent/Commands.antt for these messages,
-- Agent/Settings.antt for the messages that change settings, and Agent/Supervise.antt for the 1 Hz
-- pass; the agent also starts metarec and the space monitor. Link.antt delivers the messages of event
-- control to the agent.
-- The agent's configuration (reagent/src/config) is Config.antt. Config/Xml.antt reads a file as expat
-- calls its handlers (xmlutil.c), into addresses that the table in Config/Media.antt names
-- (reagent_config.c); Config/Media/Recorders.antt sets the recorders and cameras up from them.
-- Config/User.antt collects what the host sends (user_config.c), Config/Dom/Accept.antt takes it over
-- into the files base_config.xml and current_config.xml with the changes of documents in
-- Config/Dom.antt, and Config/Dom/Urls.antt gives cameras new addresses (domutil.c). Search.antt is the
-- search for recorded data (reagent/src/ra_data_search.c). Download.antt writes the segments of a
-- download, Download/Attempt.antt is an attempt on a drive and then the other, and
-- Download/Playback.antt makes the links for playback (reagent/src/ra_download.c).
-- Prelude.antt holds the shared helpers.
-- The modules below a part hold its lemmas; those named Tests hold runs on concrete data, but for
-- Prelude/Tests.antt, which holds the Boolean tests on numbers.
--
-- How the code is modelled
-- A function of the source keeps its name, takes the state that it changes and gives the new one. A
-- pointer into the ring is an index into its array, a FILE pointer is a number and NULL is `none`;
-- what the recording thread asks of the file system is a trace of effects. What other threads do
-- while a function holds no lock is an argument: the result of a timed wait, and the change of state
-- between the dequeue and the copy of a descriptor. Results of the C library, of PTC messages and of
-- headers outside the repository are arguments: clocks, gmtime, mktime, fopen, fwrite, statvfs,
-- remove, readdir, qsort, sizes of structures, versions of messages, and the conversions of GPS texts.
-- The PTC timers of event control are an interface of three operations; what a pass reads is a
-- record. In the agent a camera is its index in the array, the two flag words of a camera are records
-- of their bits, and spawning, waitpid and strncasecmp are a record of results for each call.
-- The XML library mxml is an interface of seven operations, with what is relied on as a record of
-- laws; expat is the list of calls of its handlers. Where the configuration reader would read outside
-- its objects, and where a document's element has no text for strcmp, the model returns none.
--
-- Assumptions
-- malloc succeeds; path buffers are long enough; the names of chunk files start with their digits;
-- percentages are exact where the program uses floats; clocks are below 2 ^ 64 nanoseconds; there
-- are at most two storage locations, as in the arrays of the program. In the list of recordings,
-- times are not negative and less than 2 ^ 31 seconds apart, a drive has at most 16 cameras of at
-- most 65536 chunks, no camera's name is twelve underscores, and the static index of the next chunk
-- is 0 when a drive's search starts. In the collector, the document's file opens and its static
-- pointer is null before the call. In event control names are passed on whole, as in arrays of one
-- length; in the agent no process number is -1, and raconf_get_media_info gives the one structure.
-- In the configuration the fields of a structure do not overlap, the memory behind a stored value
-- is zero, a saved document is what parsing gives again, expat ends only elements that are open,
-- and numbers in texts have no sign. In the search for data the callbacks of a walk get paths with
-- a slash. In downloads the sizes are compared exactly, offsets are below 2 ^ 53 and names fit
-- their buffers. Positions in a chunk file are below 2 ^ 32 and the durations in names below 2 ^
-- 63; the space monitor's paths have no two slashes side by side; an addressed element of the
-- configuration has room for two characters or more; and a file that cannot be saved is left as it
-- is.
--
-- Bounds and fuel
-- The ring has ten slots. 64-bit and 32-bit sums keep their wrap-around. The loops of the space
-- monitor take fuel for their rounds; more fuel than a drive has files is enough for the loop on
-- free space, and for the grooming of a camera as long as its deletions succeed; where they fail,
-- no fuel is. The loops that delete and adopt elements of a document take fuel for the elements
-- that there are. Searches are recursion on the tree of a directory, and the other loops are
-- recursion on their lists.
--
-- Not modelled
-- Command lines and main functions, thread creation and signal masks, log output, the text of XML
-- tags, the agent's web server and other messages, the main data of a download, the network calls
-- to cameras, the access to recorded data, the configuration and GPS messages of the recorder's
-- host, its QNX and LNVR builds, the RTSP player, and the copies of cJSON, expat and the web
-- server's headers.
pub mod Prelude
pub mod Queue
pub mod Metarec
pub mod Storage
pub mod SpaceMonitor
pub mod Metacollector
pub mod Recordings
pub mod EventControl
pub mod Agent
pub mod Config
pub mod Search
pub mod Download
pub mod Link
