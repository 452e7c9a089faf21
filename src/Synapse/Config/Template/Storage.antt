-- ===== src/Synapse/Config/Template/Storage.antt =====
-- The caches, the database and the log, in the text that `configMapForSynapse` of
-- controllers/synapse/synapse/synapse_configmap.go writes to homeserver.yaml.
use synapse_operator.Base.{String, ◌<>◌, List, [], ◌∷◌}
use synapse_operator.Api.{SynapseHomeserverValues}

unfoldable pub storage_lines : SynapseHomeserverValues → List String
storage_lines v =
    "## Caching ##"
    ∷ ""
    ∷ "# Caching can be configured through the following options."
    ∷ "#"
    ∷ "# A cache 'factor' is a multiplier that can be applied to each of"
    ∷ "# Synapse's caches in order to increase or decrease the maximum"
    ∷ "# number of entries that can be stored."
    ∷ ""
    ∷ "# The number of events to cache in memory. Not affected by"
    ∷ "# caches.global_factor."
    ∷ "#"
    ∷ "#event_cache_size: 10K"
    ∷ ""
    ∷ "caches:"
    ∷ "   # Controls the global cache factor, which is the default cache factor"
    ∷ "   # for all caches if a specific factor for that cache is not otherwise"
    ∷ "   # set."
    ∷ "   #"
    ∷ "   # This can also be set by the \"SYNAPSE_CACHE_FACTOR\" environment"
    ∷ "   # variable. Setting by environment variable takes priority over"
    ∷ "   # setting through the config file."
    ∷ "   #"
    ∷ "   # Defaults to 0.5, which will half the size of all caches."
    ∷ "   #"
    ∷ "   #global_factor: 1.0"
    ∷ ""
    ∷ "   # A dictionary of cache name to cache factor for that individual"
    ∷ "   # cache. Overrides the global cache factor for a given cache."
    ∷ "   #"
    ∷ "   # These can also be set through environment variables comprised"
    ∷ "   # of \"SYNAPSE_CACHE_FACTOR_\" + the name of the cache in capital"
    ∷ "   # letters and underscores. Setting by environment variable"
    ∷ "   # takes priority over setting through the config file."
    ∷ "   # Ex. SYNAPSE_CACHE_FACTOR_GET_USERS_WHO_SHARE_ROOM_WITH_USER=2.0"
    ∷ "   #"
    ∷ "   # Some caches have '*' and other characters that are not"
    ∷ "   # alphanumeric or underscores. These caches can be named with or"
    ∷ "   # without the special characters stripped. For example, to specify"
    ∷ "   # the cache factor for  '*stateGroupCache* ' via an environment"
    ∷ "   # variable would be  'SYNAPSE_CACHE_FACTOR_STATEGROUPCACHE=2.0 '."
    ∷ "   #"
    ∷ "   per_cache_factors:"
    ∷ "     #get_users_who_share_room_with_user: 2.0"
    ∷ ""
    ∷ ""
    ∷ "     ## Database ##"
    ∷ ""
    ∷ "# The 'database' setting defines the database that synapse uses to store all of"
    ∷ "# its data."
    ∷ "#"
    ∷ "# 'name' gives the database engine to use: either 'sqlite3' (for SQLite) or"
    ∷ "# 'psycopg2' (for PostgreSQL)."
    ∷ "#"
    ∷ "# 'args' gives options which are passed through to the database engine,"
    ∷ "# except for options starting 'cp_', which are used to configure the Twisted"
    ∷ "# connection pool. For a reference to valid arguments, see:"
    ∷ "#   * for sqlite: https://docs.python.org/3/library/sqlite3.html#sqlite3.connect"
    ∷ "#   * for postgres: https://www.postgresql.org/docs/current/libpq-connect.html#LIBPQ-PARAMKEYWORDS"
    ∷ "#   * for the connection pool: https://twistedmatrix.com/documents/current/api/twisted.enterprise.adbapi.ConnectionPool.html#__init__"
    ∷ "#"
    ∷ "#"
    ∷ "# Example SQLite configuration:"
    ∷ "#"
    ∷ "#database:"
    ∷ "#  name: sqlite3"
    ∷ "#  args:"
    ∷ "#    database: /path/to/homeserver.db"
    ∷ "#"
    ∷ "#"
    ∷ "# Example Postgres configuration:"
    ∷ "#"
    ∷ "#database:"
    ∷ "#  name: psycopg2"
    ∷ "#  args:"
    ∷ "#    user: synapse_user"
    ∷ "#    password: secretpassword"
    ∷ "#    database: synapse"
    ∷ "#    host: localhost"
    ∷ "#    cp_min: 5"
    ∷ "#    cp_max: 10"
    ∷ "#"
    ∷ "# For more information on using Synapse with Postgres, see  'docs/postgres.md '."
    ∷ "#"
    ∷ "database:"
    ∷ "  name: sqlite3"
    ∷ "  args:"
    ∷ "    database: /data/homeserver.db"
    ∷ ""
    ∷ ""
    ∷ "    ## Logging ##"
    ∷ ""
    ∷ "# A yaml python logging config file as described by"
    ∷ "# https://docs.python.org/3.7/library/logging.config.html#configuration-dictionary-schema"
    ∷ "#"
    ∷ ("log_config: \"/data/" <> (v.server_name <> ".log.config\""))
    ∷ ""
    ∷ ""
    ∷ []
