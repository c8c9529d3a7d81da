-- ===== src/Lib.antt =====
-- SCSI2Pi: an emulation of SCSI devices. A controller speaks the bus protocol for a target and hands
-- each command to a logical unit; a unit is a disk, a tape drive or another device. This library
-- models the controller's protocol, the part of a unit that all devices share, the tape drive,
-- the part that devices with an image file share, and disks with their caches.
--
-- Scsi          cpp/shared/scsi.h, s2p_exceptions.h: enumerations, ScsiException
-- Memory        cpp/shared/memory_util: GetInt16 to SetInt64 as get_int16 to set_int64
-- Disk          cpp/devices/disk.cpp: CheckAndGetStartAndCount and ValidateBlockAddress; Access has Read,
--               Write, Verify, ReadData, WriteData, Capacity the sizes and ReadWriteLong, Backing the
--               cache as an interface (SectorCache) and the two classes that fill it
-- Storage       cpp/devices/storage_device.cpp: medium, reserved image files and block size; Select has
--               ModeSelect for a disk, with the sizes of the mode pages as a parameter
-- Cache         cpp/devices/linux_cache.cpp as Linux, cpp/devices/disk_track.cpp as Track and
--               cpp/devices/disk_cache.cpp as Disk: a method of the source is a function of the same
--               name; Holds and Loaded say which contents of a disk a track cache stands for, Kept to
--               Refined how the operations treat them, Run calls in sequence, Direct the same for Linux
-- File          the image file behind a std::fstream, with the errors that the system chooses
-- Simh          cpp/shared/simh_util: ReadMetaData, IsRecord, Pad, WriteGoodData, FromLittleEndian, ...
-- Device        cpp/base/device: the flags, Start, Stop, Eject
-- Primary       cpp/base/primary_device: CheckReady, CheckReservation, SetStatus, ...; Primary.Sense has
--               HandleRequestSense, and FormatSenseData of cpp/shared/s2p_util.cpp
-- Controller    cpp/controllers: Transfer has the counters and the buffer of abstract_controller.cpp,
--               State the rest of the state, Phases the entry into the phases and Error, Commands the
--               COMMAND phase and Execute, Sending and Receiving the transfers, Messages the messages,
--               Process one call of Process and the loop of ProcessOnController
-- Tape          cpp/devices/tape.cpp: Objects has ReadNextMetaData to FindObject, Records ReadData and
--               WriteData with the meta data, Commands the command handlers (Access: Read, Write; Erase;
--               Space; Filemarks; Position)
--
-- A method that changes an object and may throw takes the state and gives an Outcome (Base.Except):
-- done, thrown with what was changed before, or stuck, which says that the fuel of a loop ran out. In
-- the controller a failed assertion is none. A C++ integer is a natural number with its wrap-around
-- written out, or an integer of Base.Int where it can be negative.
--
-- Fuel: ReadSimhMetaData, FindNextObject and FindObject take a round for each object, and an object
-- takes four bytes or more of the image; Erase takes a round for each chunk of 4096 bytes; saving a track
-- takes at most a round for each of its sectors; MODE SELECT takes a round for each page, which has two
-- bytes or more.
--
-- The bus handshakes, the initiator and, for the controller, the logical units are interfaces: what they
-- do is a parameter. In a cache a failed assertion or the use of a null pointer is none, and positions
-- in an image are assumed to be below 2 ^ 63. Whether a transfer of an image file fails is a function of
-- offset and length. A write of a track may also be accepted by the stream and lost when the stream is
-- closed; the other code is modelled without lost writes. Not modelled: the contents of the mode pages, the
-- types of disks, the other devices, opening and closing of files elsewhere, logging, the remote
-- interface and the tools.
pub mod Base
pub mod Scsi
pub mod Memory
pub mod File
pub mod Simh
pub mod Device
pub mod Primary
pub mod Controller
pub mod Tape
pub mod Cache
pub mod Disk
pub mod Storage
