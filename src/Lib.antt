-- ===== src/Lib.antt =====
-- LumaCore, a controller for RGB lamps: a model of its core and of its path to the hardware.
--
-- The program has devices with zones, and zones with lamps. A change of colour or effect passes the
-- write gate, which asks the permission gate what the device permits and the user whether a write is
-- confirmed; an ASUS Aura device then turns the change into 65-byte HID reports. A daemon can stand
-- between the interface and the devices; it reads messages from a socket, one on each line.
--
-- Which file models which part (paths from the root of the repository):
--   Color    core/RgbColor.h, core/RgbColor.cpp: `RgbColor`, `fromRgb`, `toHexString`, `fromHexString`.
--   Effect   core/RgbEffect.h, core/RgbEffect.cpp: the kinds of effects, `RgbEffect`.
--   Zone     core/RgbLed.*, core/RgbZone.*: `RgbZone` and its setters, functions from zone to zone.
--   Log      core/ActivityLog.*: the bounded log. The calls take a log and return the log after them;
--            what `trimmed` leaves of a text is a field of the log.
--   Permission       core/BackendCapabilities.h, core/PermissionGate.cpp.
--   Permission.Gate  core/WriteGate.cpp: `evaluate` returns the outcome and the log.
--   Aura     hardware/asus/AsusAuraHidProtocol.h and .cpp. `Config` validates a config table and finds
--            the target of a zone, `Parse` reads the response of the controller, `Report` lays out
--            reports, `Write` builds the packets, `Write.Direct` those of a frame and of all-off.
--            `Ready` says independently which tables may be written to, `Targets` what a zone stands
--            for, `Stream` how a stream of colours is read back, `Packets` which inputs give a packet
--            and what it sends.
--   Engine   core/EffectsEngine.h and .cpp: the zones that stream, with `Engine.Frame` for `computeFrame`,
--            and `Engine.Tick` for `tick` and `paintZoneFrame` of core/DeviceManager.cpp. The devices are
--            an interface, the record `Devices`, and the state they share with the engine is `World`.
--            `Engine.Safe` says which frames a tick may send.
--   Hid      hardware/linux/HidDeviceWriter.cpp, over HIDAPI as the record `Hidapi`: its state is passed in
--            and out of each call, and `IsHidapi` says what its calls do to the devices that are open,
--            to the initialisations, and to what was written.
--   Device   core/RgbDevice.h and .cpp: the base device. `Device.Step` has the calls that change it,
--            `Device.Change` what one of them changes.
--   Asus     backends/asus/AsusAuraHidDevice.cpp: the zones and the permissions of the device, with
--            `Asus.Write` for what it sends over the writer of `Hid`. `Asus.Zones` compares its zones with
--            those of the protocol, `Asus.Safe` says what failing writes leave alone, `Asus.Live` which
--            devices can always be written to.
--   Manager  core/DeviceManager.cpp: the devices with the confirmations, dry-run and the streams, and the
--            writes (`Manager.Write`, and `Manager.Effect` for effects). The devices are an interface,
--            the record `RgbDevices`, which the mock device fills; the state `V` of a device is passed
--            in and out of its methods. `Manager.Safe` says when a write reaches a device,
--            `Manager.Engine` which zones stream after an effect, `Manager.Session` how long a
--            confirmation lasts, and `Manager.Asus` puts the ASUS device behind the manager.
--   Mock     backends/mock/MockRgbDevice.cpp.
--   Schedule core/ScheduleService.cpp and core/ScheduleTime.cpp: the profile that is applied once a day;
--            `run_checks` is a sequence of checks by the timer, each at its times. What `QTime` reads and
--            writes are parameters.
--   Client   ipc/DaemonClient.cpp, the pending calls: `Client.Reach` has the events that change them, and a
--            call of a handler is an entry in `answered`.
--   Frames   ipc/DaemonFrameCodec.cpp, and the read loop of ipc/DaemonServer.cpp.
-- Shared by all: `Prelude` (lists, integers and tests over the native numbers), `Text` (texts as lists
-- of character codes), `Message` (a `QString` made from a pattern and arguments, kept as the pattern
-- and the arguments), and `Real` (doubles).
--
-- Conventions. An `int` that the code tests for its sign is a ℤ, any other number a ℕ; a cast to a byte
-- is written `% 256`. A `QByteArray` is a list of bytes. A function that returns an error text or a
-- result with an error returns a `ProtocolResult`; an optional result is an `Option`. What Qt and the
-- C library do enters as a parameter: the operations on doubles (`Real`, with the laws of exact
-- arithmetic on whole numbers in `IsReal`), case folding, `trimmed`, and the reading of a colour.
--
-- Fuel. The loop over the reports of a frame has as much fuel as there are lamps, and each report takes
-- at least one. The read loop of the daemon has twice the unread bytes and those of the buffer, and one
-- more: a round takes a byte from the buffer or moves one into it.
--
-- Not modelled: the choice of a backend by the manager, profiles, discovery, the JSON protocol of the
-- daemon and the connection of its client, which are still to come; and the user interface, the
-- application shell and the access to the operating system and to HIDAPI, which are input and output.
pub mod Prelude
pub mod Message
pub mod Color
pub mod Real
pub mod Text
pub mod Effect
pub mod Zone
pub mod Log
pub mod Permission
pub mod Aura
pub mod Frames
pub mod Engine
pub mod Hid
pub mod Device
pub mod Asus
pub mod Manager
pub mod Mock
pub mod Schedule
pub mod Client
