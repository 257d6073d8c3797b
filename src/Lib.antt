-- ===== src/Lib.antt =====
-- A model of the OTA server for Zigbee devices (JarZem/ota_server): a Home Assistant add-on in Python
-- that provisions ESP devices over MQTT and hands firmware out to them over HTTPS.
--
-- The parts and their files:
--   * mqtt_listener.py, the provisioning state machine. A device sends H (signed hello with a counter),
--     gets A (challenge), answers R (signature), gets P (encrypted Wi-Fi options) and reports T; F
--     confirms a transfer. Listener/State.antt has the table of sessions and the timeout thread,
--     Listener/HelloFrame.antt and Listener/ResponseFrame.antt the handlers, and Listener.antt
--     `on_message`, the callback; `pause` lists the passes of the timeout thread between the
--     two locked parts of a handler.
--   * device_registry.py and the provisioning context of ota_check_security.py: Registry.antt. The
--     counters are taken by an UPDATE with a guard and its count of rows. Registry/Certificates.antt
--     has the registration of a certificate, Registry/Refinement.antt the specification of the HELLO
--     counters, one register for each device.
--   * ota_check_security.py and `consume_dispatch_token` of ota_check_runtime.py: Grants/Tokens.antt, the
--     creation of a one-time grant for a download, and Grants/Downloads.antt, its use.
--   * ota_check_runtime.py and the route /send of server.py: Dispatch.antt, the loop that makes a grant
--     for each selected device and puts its C wire on Zigbee.
--   * server_mysql.py and server.py: Https.antt, the download of a file with a token, in two steps so that
--     requests can be interleaved, and the consumption of the grant after the transfer.
--   * firmware_publish.py, with the table of publications of activity.py: Publish.antt. A build machine
--     sends a signed firmware; zigbee2mqtt_publish.py and publish_guard.py: Publish/Converter.antt, the
--     converter that may follow it, and Publish/Deployed.antt what one that is deployed went through.
--   * ota_helper.py: BucketToken.antt, the older tokens, and Firmware/Candidates.antt, the codes that the
--     tools try.
--   * server_mysql.py: Maintenance.antt, what the user interface deletes.
--   * status_listener.py: Status.antt, the signed boot status (S) of a device.
--   * secure_transport.py: Transport.antt, with the key derivation in Crypto.antt.
--   * activity.py: Activity.antt, the tables of attempts and of transfers.
--   * server.py: Firmware.antt, the three-character codes of firmware files.
--   * device_enrollment.py and the enrollment routes of server.py: Enrollment.antt (canonical bytes,
--     challenges) and Enrollment/Server.antt (the table of devices).
--   * server.py: Catalog.antt, the scan of the firmware directory, and Catalog/Versions.antt, the order
--     of versions and the choice of the newest image.
--   * device_enrollment.py and ota_helper.py: Ident.antt, the two ways to normalize an identity.
--   * migrations/versions: Db.antt, a record for each table's rows; a database is its lists of rows.
--   * Encoding.antt: base64url, hexadecimal, UTF-8 and big-endian numbers. Base.antt: shared helpers.
-- The listener writes the registry (counters, context), the attempts and, for F, the transfers; the
-- HTTPS server issues grants from the context that the listener stored, and consumes them.
--
-- Times are arguments, as are the bytes of `os.urandom`. HMAC, SHA-256, ECDH, ECDSA and AES-GCM are the
-- fields of the record `Crypto`, with their sizes in `HasSizes`; that signatures and digests cannot be
-- forged is assumed nowhere. An exception is `err` or `none`, a transaction that raises leaves the
-- database as it was. A text is its list of code points; equality in SQL is equality of these.
-- The sizes of two columns are modelled, since the code lets larger values through to them: the counter of
-- an attempt (BIGINT) and the version of a publication (VARCHAR(64)).
--
-- Bounds: `decimal` takes n + 1 rounds for n, which is more than its digits; `free_code` takes the
-- 62 ** 3 rounds of the source; `receive` takes as many rounds as bytes are announced, and each round
-- that goes on reads one at least. No other definition has fuel.
--
-- Not modelled: the POST routes of the HTTPS server but for enrollment, the pages of the user interface,
-- the checks of X.509 certificates, reading firmware files and their metadata, the exchange with
-- Zigbee2MQTT, the MQTT observer, the set-up tools and the C component. Logs, the writing of the activity
-- log and the rendering of tables are output only.
pub mod Base
pub mod Ident
pub mod Db
pub mod Registry
pub mod Encoding
pub mod Crypto
pub mod Activity
pub mod Transport
pub mod Grants
pub mod Firmware
pub mod Enrollment
pub mod Catalog
pub mod Listener
pub mod Status
pub mod Https
pub mod Dispatch
pub mod Publish
pub mod BucketToken
pub mod Maintenance
pub mod Tests
