-- ===== src/Status.antt =====
-- talos_panel/minecraft_status.py: the VarInt coding of the status protocol and the reading of a
-- packet. A byte is a number below 256; the text of the answer is left as its bytes.
pub mod Varint
pub mod Packet
