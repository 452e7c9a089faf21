-- ===== src/Synapse/Config/Template/Media.antt =====
-- The store of media, in the text that `configMapForSynapse` of
-- controllers/synapse/synapse/synapse_configmap.go writes to homeserver.yaml.
use synapse_operator.Base.{String, List, [], ◌∷◌}

abbrev pub media_lines : List String
media_lines =
    "## Media Store ##" ∷ ""
    ∷ "# Enable the media store service in the Synapse master. Uncomment the"
    ∷ "# following if you are using a separate media store worker." ∷ "#"
    ∷ "#enable_media_repo: false" ∷ ""
    ∷ "# Directory where uploaded images and attachments are stored." ∷ "#"
    ∷ "media_store_path: \"/data/media_store\"" ∷ ""
    ∷ "# Media storage providers allow media to be stored in different" ∷ "# locations." ∷ "#"
    ∷ "#media_storage_providers:" ∷ "#  - module: file_system"
    ∷ "#    # Whether to store newly uploaded local files" ∷ "#    store_local: false"
    ∷ "#    # Whether to store newly downloaded remote files" ∷ "#    store_remote: false"
    ∷ "#    # Whether to wait for successful storage for local uploads"
    ∷ "#    store_synchronous: false" ∷ "#    config:"
    ∷ "#       directory: /mnt/some/other/directory" ∷ ""
    ∷ "# The largest allowed upload size in bytes" ∷ "#" ∷ "#max_upload_size: 50M" ∷ ""
    ∷ "# Maximum number of pixels that will be thumbnailed" ∷ "#" ∷ "#max_image_pixels: 32M" ∷ ""
    ∷ "# Whether to generate new thumbnails on the fly to precisely match"
    ∷ "# the resolution requested by the client. If true then whenever"
    ∷ "# a new resolution is requested by the client the server will"
    ∷ "# generate a new thumbnail. If false the server will pick a thumbnail"
    ∷ "# from a precalculated list." ∷ "#" ∷ "#dynamic_thumbnails: false" ∷ ""
    ∷ "# List of thumbnails to precalculate when an image is uploaded." ∷ "#" ∷ "#thumbnail_sizes:"
    ∷ "#  - width: 32" ∷ "#    height: 32" ∷ "#    method: crop" ∷ "#  - width: 96"
    ∷ "#    height: 96" ∷ "#    method: crop" ∷ "#  - width: 320" ∷ "#    height: 240"
    ∷ "#    method: scale" ∷ "#  - width: 640" ∷ "#    height: 480" ∷ "#    method: scale"
    ∷ "#  - width: 800" ∷ "#    height: 600" ∷ "#    method: scale" ∷ ""
    ∷ "# Is the preview URL API enabled?" ∷ "#"
    ∷ "# 'false' by default: uncomment the following to enable it (and specify a"
    ∷ "# url_preview_ip_range_blacklist blacklist)." ∷ "#" ∷ "#url_preview_enabled: true" ∷ ""
    ∷ "# List of IP address CIDR ranges that the URL preview spider is denied"
    ∷ "# from accessing.  There are no defaults: you must explicitly"
    ∷ "# specify a list for URL previewing to work.  You should specify any"
    ∷ "# internal services in your network that you do not want synapse to try"
    ∷ "# to connect to, otherwise anyone in any Matrix room could cause your"
    ∷ "# synapse to issue arbitrary GET requests to your internal services,"
    ∷ "# causing serious security issues." ∷ "#"
    ∷ "# (0.0.0.0 and :: are always blacklisted, whether or not they are explicitly"
    ∷ "# listed here, since they correspond to unroutable addresses.)" ∷ "#"
    ∷ "# This must be specified if url_preview_enabled is set. It is recommended that"
    ∷ "# you uncomment the following list as a starting point." ∷ "#"
    ∷ "#url_preview_ip_range_blacklist:" ∷ "#  - '127.0.0.0/8'" ∷ "#  - '10.0.0.0/8'"
    ∷ "#  - '172.16.0.0/12'" ∷ "#  - '192.168.0.0/16'" ∷ "#  - '100.64.0.0/10'"
    ∷ "#  - '192.0.0.0/24'" ∷ "#  - '169.254.0.0/16'" ∷ "#  - '198.18.0.0/15'"
    ∷ "#  - '192.0.2.0/24'" ∷ "#  - '198.51.100.0/24'" ∷ "#  - '203.0.113.0/24'"
    ∷ "#  - '224.0.0.0/4'" ∷ "#  - '::1/128'" ∷ "#  - 'fe80::/10'" ∷ "#  - 'fc00::/7'" ∷ ""
    ∷ "# List of IP address CIDR ranges that the URL preview spider is allowed"
    ∷ "# to access even if they are specified in url_preview_ip_range_blacklist."
    ∷ "# This is useful for specifying exceptions to wide-ranging blacklisted"
    ∷ "# target IP ranges - e.g. for enabling URL previews for a specific private"
    ∷ "# website only visible in your network." ∷ "#" ∷ "#url_preview_ip_range_whitelist:"
    ∷ "#   - '192.168.1.1'" ∷ "" ∷ []
