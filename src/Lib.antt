-- ===== src/Lib.antt =====
-- Verification of the fermentation controller's runtime, runtime-pi (Go).
--
-- The program keeps a list of fermenters (`SystemState`). One controller per fermenter opens and
-- closes its glycol valve by hysteresis, overrides and a fail-safe; the API and the serial client
-- change targets, modes and readings under the same mutex; an alarm manager reads the state once a
-- second; a scheduler moves the targets along stored profiles; SQLite keeps rows, profiles, events
-- and settings. A PIN guards the API.
--
-- Files, with the code that they model:
--   Control, Control/Fleet, Control/Setters, Control/Config, Control/Export:
--     runtime-pi/internal/control/controller.go, the state with its operations. An operation holds the
--     mutex throughout, so it is one function; its error is `some` message.
--   Control/Tick: `RunController`. The mutex is released around the driver call, so a tick is
--     `plan_tick` (up to the call) and `commit` (after it); `tick_fermenter` and `tick` put both
--     together. Tick/FailSafe, Tick/Overrides and Tick/Hysteresis prove its branches.
--   Control/Invariant: the words that valves and overrides hold.
--   Control/Run: sequences of whole ticks. Control/Threads: the goroutines as a step relation in which
--     ticks may overlap between their two parts. Control/Operations: the operations as data, with the
--     watchdog of runtime-pi/cmd/fermenter/main.go.
--   Alarm: runtime-pi/internal/alarm/manager.go. Alarms are a map from keys; the calls of the event
--     hook are a result.
--   Auth: runtime-pi/internal/auth/auth.go. Session: runtime-pi/internal/api/auth.go. Random tokens are
--     arguments.
--   Store: runtime-pi/internal/store/sqlite.go. Tables are lists and maps; SQL is modelled by what each
--     statement does to them, and a statement that is refused changes none. Retry: `execRetry`. Rows:
--     the fermenters' rows and what a boot resumes. Profiles: profiles and assignments. Settings, Events
--     and Samples: the tables of those names.
--   Scheduler: the scheduler goroutine of runtime-pi/cmd/fermenter/main.go, one round for one
--     fermenter; the panic of an index out of range is `none`.
--     Scheduler/Consistency: what the tables of profiles and assignments keep.
--   Api: runtime-pi/internal/api. The handlers are functions from the decoded request and the state
--     (`App`) to the new state and the answer: Targets (server.go), Modes (mode.go), Profiles
--     (profile.go), Settings (settings.go), Records (alarms.go, events.go, history.go). Routes: the
--     routes of server.go with the guard. Access, Requests, Serving, Answers, Errors, Logging and
--     Assigning prove what requests do. A request is one step here.
--   Sse: runtime-pi/internal/sse/sse.go. The turns of broadcasts and connections follow each other in
--     any order; a send on a closed channel is `none`.
--   Serial: runtime-pi/internal/arduino/arduino.go, with the telemetry clock and the watchdog of
--     runtime-pi/cmd/fermenter/main.go. Serial/Device: the device with its wire. Serial/Plant: the
--     controllers and the watchdog over a device, in place of the driver's answers that Control takes as
--     arguments; Plant/Mirror, Plant/Refused and Plant/Between relate the state to what the device was
--     told.
--   Process: the start of runtime-pi/cmd/fermenter/main.go and all of its goroutines as one step
--     relation over the state of the API and the controllers, with restarts that keep the database.
--     Process/Launch: the configuration's path, the database and the driver before the start, with the
--     errors that end the program; Launch/Ready composes it with Serial/Plant.
--     Process/Ending: the listener, systemd and the shutdown. Process/Streams: the broadcasts of the state
--     over Sse. Process/AlarmLog: the table of events against the open alarms, in that relation.
--     Process/Overlap: rounds of the scheduler and requests about profiles statement by statement, as
--     a second step relation in which all else is one kind of step that leaves the tables of profiles
--     alone; Overlap/Parts puts the parts together again.
--   Web: runtime-pi/internal/web/assets.go, and the page and static files of server.go.
--   Central: central-server/cmd/controlplane/main.go.
--   Decimal: numbers in decimal as Go's strconv prints and parses them.
--   Prelude, Time, Float64: Go's integers, maps, `time` and `float64`. Times are nanoseconds since year
--     1 and do not wrap; durations are `int64`s that saturate or wrap as Go's do. `float64` is an
--     interface of operations; a statement that needs a law of them takes it as a hypothesis.
--     Float64/Scaled is an instance.
--   Tests: concrete states on which the definitions run.
--
-- Fuel: `execRetry` counts down from the six rounds that it has in the code, and a round of the
-- scheduler is put together from at most three parts after its first read; everything else is
-- structural.
--
-- Not modelled: the routing of HTTP, making the tables, the wait of the shutdown for requests,
-- parseHumanDuration (nothing calls it), the firmware and the browser code. SQLite's errors and AVG,
-- the scan of its columns into times, JSON, YAML, time.ParseDuration, templates, the file system and
-- random bytes are arguments. Of requests that run at the same time, those that write assignments
-- are interleaved, others are not; a data race outside the mutex is not modelled. What a port
-- returns is an argument; a write that fails is taken to leave no line that the firmware reads.
pub mod Prelude
pub mod Time
pub mod Decimal
pub mod Float64
pub mod Control
pub mod Alarm
pub mod Auth
pub mod Session
pub mod Store
pub mod Scheduler
pub mod Api
pub mod Sse
pub mod Serial
pub mod Process
pub mod Tests
pub mod Web
pub mod Central
