-- ===== src/Lib.antt =====
-- Verification library of Qube Enterprise: models of its Go programs, and the theorems about them.
--
-- The data of a Qube flows from the readers (modbus-reader and others) to core-switch, which writes points
-- to InfluxDB, behind influxdb-relay, and forwards live ones to conf-agent; enterprise-influx-to-sql moves
-- what is in InfluxDB to the cloud; the cloud sends commands to the Qubes over WebSockets and by polling, and
-- relays live data to browsers. The parts modelled are these:
--
-- - Relay (influxdb-relay/relay): Relay.BufferList and Relay.Retry are `bufferList` and `retryBuffer` of
--   retry.go. Relay.Retry has `post` and `run` cut into uninterrupted pieces, and Relay.Retry.Runs interleaves
--   them as steps. Relay.Http is `ServeHTTP` of http.go up to the backends (`prepare`) and behind them
--   (`choose`); Relay.Http.Backend is `simplePoster.post` and `newHTTPBackend`; Relay.Udp is udp.go;
--   Relay.Service is `New` of relay.go.
-- - Transfer (enterprise-influx-to-sql): `run` is `Run` of transfer/transfer.go, with the sensor map and
--   its two sources.
-- - Modbus (modbus-reader/modbus/modbus.go): Modbus.Groups is `Init`, Modbus.Blocks the block reads of
--   `fetchData` and `adjustCountForDataTypes`, Modbus.Decoding `decodeValue`.
-- - Switch (core-switch): `batch_data`, `single_data`, `alert_rx` and `forward_live` of http/http.go, and
--   `batch_write`, `escape_lp` of influx/influx.go, on a record of the counters, of `Last` and of what went out.
-- - Commands (cloud/internal/api/commands.go and websocket.go, cloud/internal/tpapi/commands.go): the table
--   `qube_commands` as a list of rows, its updates as passes over them.
-- - Hub (cloud/internal/api/wshub.go and websocket.go): the hub of the Qubes, with clients in a store, and the
--   hub of the browsers.
-- - Users (cloud/internal/api/users.go): the table `users`, and the three handlers that change it, by the role
--   of the caller's token.
-- - Agent (conf-agent/agent/agent.go): what a device runs and keeps on disk, and its checks of the cloud;
--   Agent.Registration is `SelfRegister` and `reRegister` over the replies that come, Agent.Env the file `.env`,
--   Agent.Exec what each command of `ExecCommand` comes to; Agent.Exec.Acking runs it against Commands.
-- - Qubes (cloud/internal/api/qubes.go and hash.go): the tables as lists of rows, claiming and unclaiming, the hash
--   of a configuration; Qubes.Access (cloud/internal/tpapi/sync.go and router.go, cloud/internal/api/websocket.go)
--   has the registration of a device and the checks of its token; Qubes.Resync is the cloud's hash against Agent.
-- - Registry (cloud/internal/api/registry.go and readers.go, cloud/internal/tpapi/sync.go): the three resolutions
--   of an image.
-- - Sensors (cloud/internal/api/sensors.go and readers.go): `find_or_create_reader` for the reader of a new sensor,
--   Sensors.Merging its configuration, Sensors.Deleting `deleteSensorHandler`, Sensors.Names the names of services.
--   Sensors.Requests makes sensors, Sensors.Changing makes, changes and removes readers and changes sensors,
--   Sensors.Serving is all these requests one behind another; in Sensors.Unordered, JSON objects are a quotient
--   that forgets the order of the fields, as Go's maps do.
-- - Ingest (cloud/internal/tpapi/telemetry.go): the readings that the cloud takes in, against the batches of Transfer.
-- - Store (conf-agent/sqlite/sqlite.go, pkg/sqliteconfig/loader.go): what the agent writes of a configuration, and what
--   a reader loads of it.
-- - Download (cloud/internal/tpapi/sync.go): the configuration that a Qube gets, from the tables of Sensors; in
--   Download.Loaded it is written and loaded by Store. Download.Compose is `buildComposeYML`, line by line.
-- - Templates (cloud/internal/api/templates.go): the handlers on device templates; Templates.Config is
--   `patchDeviceTemplateConfigHandler`, Templates.Removal deleting, getting and listing, Templates.Containers the
--   handlers on reader templates. Templates.Keyed, Views, Guards, Editing, Actions and Detaching are proofs.
-- - Prelude: the names, tests, texts and integers that the parts share.
--
-- Texts that the programs take apart are lists of bytes; others are strings. Go's `int`s are natural numbers
-- where they count what is in memory; durations of the retry buffer and addresses of registers wrap as in Go.
-- Three loops run on fuel: `udpBackend.post`, on the payload's length and one, since each round sends a byte at
-- least; the block reads of `fetchData`, on the number of addresses and one, since each round takes one; the
-- batches of `Run`, on the number of readings and one. That this is enough is a part of the theorems about them.
--
-- Not modelled: sockets, HTTP and TLS, JSON, YAML, gzip, floating point, SQL beyond the statements on
-- `qube_commands`, `users` and the tables of Qubes, Sensors and Templates, the HMAC and the SHA-256, which are parameters where a model
-- needs them; start-up and configuration; logging; the outputs of scripts and Docker; the other readers,
-- con-checker, and the cloud's protocols and telemetry queries.
pub mod Prelude
pub mod Relay
pub mod Transfer
pub mod Modbus
pub mod Switch
pub mod Commands
pub mod Hub
pub mod Users
pub mod Agent
pub mod Qubes
pub mod Registry
pub mod Sensors
pub mod Ingest
pub mod Store
pub mod Templates
pub mod Download
