-- ===== src/Download/Compose.antt =====
-- The compose file of a Qube: `buildComposeYML` (cloud/internal/tpapi/sync.go). A text is the list of its characters
-- here. The environment of a container, in the order in which its map is run through, is a parameter.
pub mod Services
use qube_enterprise_home.Prelude.{if◌then◌else◌, List, [], ◌∷◌, ◌++◌, map}
use qube_enterprise_home.Prelude.Text.{Text, codes, text_eq}
use qube_enterprise_home.Registry.{Config, image_for_service}
use qube_enterprise_home.Download.{ContainerConfig}

-- The images of the core-switch, the transfer and the relay.
pub record Images : Type 0 where
  pub core_switch : Text
  pub influx_sql : Text
  pub influx_relay : Text

-- The lines of the compose file that are always there, between those with something put in.
abbrev pub heading : List Text
heading = codes "version: \"3.8\"" ∷ codes "# Generated by Qube Enterprise v2 TP-API" ∷ []

abbrev pub database_part : List Text
database_part =
    codes "# Deploy: docker stack deploy -c docker-compose.yml qube"
    ∷ codes "# Note: conf-agent is NOT in this file — it runs as a systemd binary on the host."
    ∷ []
    ∷ codes "networks:"
    ∷ codes "  qube-net:"
    ∷ codes "    external: true"
    ∷ []
    ∷ codes "volumes:"
    ∷ codes "  influxdb-data:"
    ∷ codes "    driver: local"
    ∷ []
    ∷ codes "services:"
    ∷ []
    ∷ codes "  # ── InfluxDB v1 (edge data buffer) ────────────────────────────────────────"
    ∷ codes "  influxdb:"
    ∷ codes "    image: influxdb:1.8"
    ∷ codes "    hostname: influxdb"
    ∷ codes "    networks:"
    ∷ codes "      - qube-net"
    ∷ codes "    volumes:"
    ∷ codes "      - influxdb-data:/var/lib/influxdb"
    ∷ codes "    environment:"
    ∷ codes "      - INFLUXDB_DB=edgex"
    ∷ codes "      - INFLUXDB_HTTP_AUTH_ENABLED=false"
    ∷ codes "    logging:"
    ∷ codes "      driver: \"local\""
    ∷ codes "      options:"
    ∷ codes "        max-size: \"10mb\""
    ∷ codes "        max-file: \"5\""
    ∷ codes "    deploy:"
    ∷ codes "      replicas: 1"
    ∷ codes "      restart_policy:"
    ∷ codes "        condition: any"
    ∷ []
    ∷ codes "  # ── InfluxDB Relay (write buffer: core-switch → relay → influxdb) ─────────"
    ∷ codes "  influxdb-relay:"
    ∷ []

abbrev pub relay_part : List Text
relay_part =
    codes "    hostname: influxdb-relay"
    ∷ codes "    networks:"
    ∷ codes "      - qube-net"
    ∷ codes "    logging:"
    ∷ codes "      driver: \"local\""
    ∷ codes "      options:"
    ∷ codes "        max-size: \"10mb\""
    ∷ codes "        max-file: \"5\""
    ∷ codes "    deploy:"
    ∷ codes "      replicas: 1"
    ∷ codes "      restart_policy:"
    ∷ codes "        condition: any"
    ∷ []
    ∷ codes "  # ── Core-Switch (reader data router → influxdb-relay + live) ─────────────"
    ∷ codes "  core-switch:"
    ∷ []

abbrev pub switch_part : List Text
switch_part =
    codes "    hostname: core-switch"
    ∷ codes "    networks:"
    ∷ codes "      - qube-net"
    ∷ codes "    volumes:"
    ∷ codes "      - /etc/timezone:/etc/timezone:ro"
    ∷ codes "      - /etc/localtime:/etc/localtime:ro"
    ∷ codes "      - /opt/qube/data:/opt/qube/data:ro"
    ∷ codes "    environment:"
    ∷ codes "      - HTTP_PORT=8585"
    ∷ codes "      - INFLUX_URL=http://influxdb-relay:9096"
    ∷ codes "      - INFLUX_DB=edgex"
    ∷ codes "      - SQLITE_PATH=/opt/qube/data/qube.db"
    ∷ codes "      - LOG_LEVEL=info"
    ∷ codes "    logging:"
    ∷ codes "      driver: \"local\""
    ∷ codes "      options:"
    ∷ codes "        max-size: \"10mb\""
    ∷ codes "        max-file: \"20\""
    ∷ codes "    deploy:"
    ∷ codes "      replicas: 1"
    ∷ codes "      restart_policy:"
    ∷ codes "        condition: any"
    ∷ []
    ∷ codes "  # ── Enterprise Influx-to-SQL (reads influxdb → TP-API → TimescaleDB) ──────"
    ∷ codes "  enterprise-influx-to-sql:"
    ∷ []

abbrev pub transfer_part : List Text
transfer_part =
    codes "    hostname: enterprise-influx-to-sql"
    ∷ codes "    networks:"
    ∷ codes "      - qube-net"
    ∷ codes "    volumes:"
    ∷ codes "      - /etc/timezone:/etc/timezone:ro"
    ∷ codes "      - /etc/localtime:/etc/localtime:ro"
    ∷ codes "      - /opt/qube/data:/opt/qube/data:ro"
    ∷ codes "    environment:"
    ∷ codes "      - INFLUX_URL=http://influxdb:8086"
    ∷ codes "      - INFLUX_DB=edgex"
    ∷ codes "      - SQLITE_PATH=/opt/qube/data/qube.db"
    ∷ codes "      - TPAPI_URL=${TPAPI_URL}"
    ∷ []

abbrev pub ending_part : List Text
ending_part =
    codes "      - QUBE_TOKEN=${QUBE_TOKEN}"
    ∷ codes "    logging:"
    ∷ codes "      driver: \"local\""
    ∷ codes "      options:"
    ∷ codes "        max-size: \"10mb\""
    ∷ codes "        max-file: \"20\""
    ∷ codes "    deploy:"
    ∷ codes "      replicas: 1"
    ∷ codes "      restart_policy:"
    ∷ codes "        condition: any"
    ∷ []
    ∷ []

-- Lines, each with its end.
unfoldable pub unlines : List Text → Text
unlines [] = []
unlines (l ∷ ls) = l ++ (b'\n' ∷ unlines ls)

abbrev pub heading_lines : Text → Text → Images → List Text
heading_lines qube location images =
    heading
    ++ ((codes "# Qube: " ++ (qube ++ (codes " | Location: " ++ location)))
        ∷ (database_part
            ++ ((codes "    image: " ++ images.influx_relay)
                ∷ (relay_part
                    ++ ((codes "    image: " ++ images.core_switch)
                        ∷ (switch_part
                            ++ ((codes "    image: " ++ images.influx_sql)
                                ∷ (transfer_part
                                    ++ ((codes "      - QUBE_ID=" ++ qube) ∷ ending_part)))))))))

abbrev pub env_line : Text × Text → Text
env_line (k, v) = codes "      - " ++ (k ++ (b'=' ∷ v))

abbrev pub mount_lines : List Text
mount_lines =
    codes "    networks:"
    ∷ codes "      - qube-net"
    ∷ codes "    volumes:"
    ∷ codes "      - /etc/timezone:/etc/timezone:ro"
    ∷ codes "      - /etc/localtime:/etc/localtime:ro"
    ∷ codes "      - /opt/qube/data:/opt/qube/data:ro"
    ∷ codes "    environment:"
    ∷ []

abbrev pub deploy_lines : List Text
deploy_lines =
    codes "    logging:"
    ∷ codes "      driver: \"local\""
    ∷ codes "      options:"
    ∷ codes "        max-size: \"10mb\""
    ∷ codes "        max-file: \"20\""
    ∷ codes "    deploy:"
    ∷ codes "      replicas: 1"
    ∷ codes "      restart_policy:"
    ∷ codes "        condition: any"
    ∷ []
    ∷ []

abbrev pub service_lines : (ContainerConfig → List (Text × Text)) → ContainerConfig → List Text
service_lines env c =
    (codes "  # Reader: " ++ (c.name ++ (codes " (" ++ (c.protocol ++ codes ")"))))
    ∷ (codes "  " ++ (c.name ++ codes ":"))
    ∷ (codes "    image: " ++ c.image)
    ∷ (codes "    hostname: " ++ c.name)
    ∷ (mount_lines ++ (map env_line (env c) ++ deploy_lines))

-- The loop over the containers.
unfoldable pub all_service_lines :
    (ContainerConfig → List (Text × Text)) → List ContainerConfig → List Text
all_service_lines env [] = []
all_service_lines env (c ∷ cs) = service_lines env c ++ all_service_lines env cs

abbrev pub images_for : Text → Config → Images
images_for registry cfg = record {
  core_switch = image_for_service registry cfg (codes "core_switch");
  influx_sql = image_for_service registry cfg (codes "influx_sql");
  influx_relay = image_for_service registry cfg (codes "influx_relay");
}

-- `buildComposeYML`; `registry` is QUBE_IMAGE_REGISTRY, `cfg` the table of the settings.
unfoldable pub build_compose_yml :
    (ContainerConfig → List (Text × Text))
    → Text
    → Config
    → Text
    → Text
    → List ContainerConfig
    → Text
build_compose_yml env registry cfg qube location cs =
    let loc = if text_eq location [] then codes "unset" else location in
    unlines (heading_lines qube loc (images_for registry cfg) ++ all_service_lines env cs)
