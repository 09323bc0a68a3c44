-- ===== src/Lib.antt =====
-- The configuration store of an IO module: typed records for its channels, kept in a cache, encoded
-- as a stream of tagged records, and written to one of two slots of an EEPROM under a checksum.
--
-- The parts, from the bottom up, with the file that models each (paths from the repository's root):
--   - src/drivers/storage.c, the in-memory EEPROM: Storage. Its state is the record Storage;
--     storage_init, storage_read and storage_write are functions of it.
--   - src/application/crc32.c, CRC-32/ISO-HDLC with a table: Crc32. crc32_init builds the table;
--     crc_bitwise in Crc32/Table is the algorithm that the table stands for.
--   - src/application/tlv.c, tag-length-value records: Tlv. TlvIter reads a stream and TlvWriter
--     appends to a buffer, which is part of its state; record_bytes is the format of one record.
--   - src/application/config_types.h and config_limits.h, the eight record types: Types, and
--     Types/Wire for the ranges of their fields.
--   - src/application/config_codec.c, an encoder and a decoder for each type: Codec/Cursor for the
--     byte helpers, Codec/Encode, Codec/Decode, Codec/Tag. LawfulCodec in Codec/Interface is what
--     the manager relies on of a codec, and the eight codecs fill it.
--   - src/application/config_slot.c, the two slots: Slot. slot_write writes the payload, then the
--     header, to the slot that is not in use; slot_pick_active finds the slot to boot from.
--     Slot/Torn models a power failure during the payload, Slot/TornHeader one during the header,
--     and Slot/History sequences of writes.
--   - src/application/config.c and config_defaults.c, the manager: Config. Config/State has its
--     state and World, which adds the states of the modules below it; Config/Defaults,
--     Config/Validate, Config/Access (the getters and setters), Config/Decode (a blob into the
--     cache), Config/Encode (the cache into a blob) and Config/Lifecycle (config_init,
--     config_deinit, config_reset_defaults, config_save) have its functions. Config/Stream
--     describes a blob as a list of tagged values, Config/Stash the records of unknown tags.
--     Config/Boot, Config/FirstBoot and Config/Persist prove what init and save do together, and
--     Config/Calls and Config/Session add sequences of setter calls, Config/Crash a power failure
--     inside the save before the init.
--   - src/application/eeprom_manager.c, the task that owns the EEPROM: Eeprom has the field appliers,
--     Eeprom/Requests process_request and a round of eeprom_task, with the requests that it takes
--     off the queue as a list, Eeprom/Start eeprom_manager_init. Eeprom/Queue has QueueConfigChange,
--     QueueConfigCommit and the task step by step, among the events of the other tasks, over the
--     state Shared; Eeprom/Commit proves what becomes of a commit.
--   - src/application/config_json.c, JSON export and import: Json. Json has the document as a tree,
--     Json/Enums the string tables, Json/Patch the readers of a field and of a record, Json/Build
--     the object of a record, Json/Report the import's report, Json/Import config_import_json with
--     the macro APPLY_ARRAY, Json/Export config_export_json. Json/RoundTrip and Json/Restore prove
--     what an import of an export does, Json/Sized and Json/Wire which documents are read without
--     undefined behaviour and what the readers give, Json/Calls which setter calls an import makes.
--   - src/drivers/uart_sim.c and src/external_comms.c, the serial line and the task for messages: Comms
--     has a frame, its command line and sending, Comms/Handlers the commands, a message and its
--     queue. Comms/Saved follows a configuration from its frame to the save,
--     Comms/Boots to the next boot.
--   - src/application/config_lock_freertos.c and config_lock_pthread.c, the lock: Lock has the first as
--     a relation on the single writes of its threads, Lock/Pthread the second.
--
-- Conventions. A byte, a word and an enum are natural numbers; the code's masks, shifts and
-- conversions are written out as % and / with powers of two, and sequence numbers wrap at 2^32.
-- Signed fields are integers with their conversion to and from unsigned ones written out. Memory is
-- a list of bytes, a pointer that may be null an Option, and an output parameter a result. A read
-- outside a buffer is a value of its own (none, fault), as is a loop that ran out of fuel, and the
-- theorems show that neither happens. Fuel: decode_blob_locked has one round for each byte and one
-- more, and a record takes four bytes at least; the loop over the stash likewise.
--
-- Sizes: a slot has 20 bytes of header and 2028 of payload; the records of a full cache take 1697
-- bytes; the stash of unknown records has 1024 bytes.
--
-- Not modelled: that the manager takes the lock (Lock models it by itself; each function of the
-- manager runs as one step, and the result of config_lock_create is its argument), asserts, printf,
-- and what a scan of the slots leaves in the part of s_blob_buf that nothing reads. cJSON is a
-- parameter: its parser and printer are arguments, single allocations are taken to succeed.
-- FreeRTOS and the sockets are parameters as well: whether xQueueSend finds room, and what recv and
-- send return, are arguments, and creating a queue or a task succeeds, as the code asserts. The
-- socket's set-up, printing and the main program, which runs a demonstration, are not modelled.
pub mod Base
pub mod Types
pub mod Tlv
pub mod Codec
pub mod Crc32
pub mod Storage
pub mod Slot
pub mod Config
pub mod Eeprom
pub mod Json
pub mod Comms
pub mod Lock
pub mod Tests
