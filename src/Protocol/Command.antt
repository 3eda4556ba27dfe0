-- ===== src/Protocol/Command.antt =====
-- `enum class Command` of Protocol.h: the commands that the client sends.
use smb_browser.Base.{ℕ}

abbrev pub negotiate : ℕ
negotiate = 0x0000

abbrev pub session_setup : ℕ
session_setup = 0x0001

abbrev pub logoff : ℕ
logoff = 0x0002

abbrev pub tree_connect : ℕ
tree_connect = 0x0003

abbrev pub tree_disconnect : ℕ
tree_disconnect = 0x0004

abbrev pub create : ℕ
create = 0x0005

abbrev pub close : ℕ
close = 0x0006

abbrev pub read : ℕ
read = 0x0008

abbrev pub write : ℕ
write = 0x0009

abbrev pub ioctl : ℕ
ioctl = 0x000b

abbrev pub query_directory : ℕ
query_directory = 0x000e

abbrev pub change_notify : ℕ
change_notify = 0x000f

abbrev pub query_info : ℕ
query_info = 0x0010

abbrev pub set_info : ℕ
set_info = 0x0011
