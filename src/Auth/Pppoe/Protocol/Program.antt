-- ===== src/Auth/Pppoe/Protocol/Program.antt =====
-- drcom/src/auth.c: `dogcom` in mode `pppoe`, in the protocol.
use jlu_drcom.Config.{Config}
