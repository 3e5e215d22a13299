-- ===== src/Daemon/Firmware.antt =====
-- From the firmware's table to the client: the decoder in the daemon and the answer to the call.
use cpu_x.Daemon.Client as Client
