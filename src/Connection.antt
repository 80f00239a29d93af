-- ===== src/Connection.antt =====
-- src/RedisConnection.cpp: the cluster's slot of a key, addresses, and the requests that open a
-- connection.
pub mod Slots
pub mod Address
pub mod Hello
pub mod Open
pub mod Seeds
mod Tests
use xredis_client.Base.{
  ℕ, zero, suc, ◌+◌, ◌-◌, ◌*◌, ◌/◌, ◌%◌, ◌^◌, Bytes, Bool, true, false, ◌&&◌, List, [], ◌∷◌, ◌++◌,
  Option, none, some, ltb, leb, ◌==◌, if◌then◌else◌, length, take, drop, get_or, codes,
}
use Prim.Native.Nat.{bit_xor, bit_or}
use xredis_client.Base.Decimal.{
  Scanned, invalid, too_large, scanned, scan, digits, from_chars, to_chars,
}
use xredis_client.Parser.{find_from}

-- One step of the CRC of CRC-16/XMODEM: bit by bit, with the polynomial 0x1021.
abbrev pub shift_bit : ℕ → ℕ
shift_bit c = if leb 0x8000 c then bit_xor (c * 2 % 2 ^ 16) 0x1021 else c * 2 % 2 ^ 16

abbrev pub iterate : ℕ → (ℕ → ℕ) → ℕ → ℕ
iterate zero f x = x
iterate (suc n) f x = iterate n f (f x)

abbrev pub xmodemcrc16lookup : List ℕ
xmodemcrc16lookup =
    0x0000 ∷ 0x1021 ∷ 0x2042 ∷ 0x3063 ∷ 0x4084 ∷ 0x50a5 ∷ 0x60c6 ∷ 0x70e7 ∷ 0x8108 ∷ 0x9129 ∷ 0xa14a
    ∷ 0xb16b ∷ 0xc18c ∷ 0xd1ad ∷ 0xe1ce ∷ 0xf1ef ∷ 0x1231 ∷ 0x0210 ∷ 0x3273 ∷ 0x2252 ∷ 0x52b5
    ∷ 0x4294 ∷ 0x72f7 ∷ 0x62d6 ∷ 0x9339 ∷ 0x8318 ∷ 0xb37b ∷ 0xa35a ∷ 0xd3bd ∷ 0xc39c ∷ 0xf3ff
    ∷ 0xe3de ∷ 0x2462 ∷ 0x3443 ∷ 0x0420 ∷ 0x1401 ∷ 0x64e6 ∷ 0x74c7 ∷ 0x44a4 ∷ 0x5485 ∷ 0xa56a
    ∷ 0xb54b ∷ 0x8528 ∷ 0x9509 ∷ 0xe5ee ∷ 0xf5cf ∷ 0xc5ac ∷ 0xd58d ∷ 0x3653 ∷ 0x2672 ∷ 0x1611
    ∷ 0x0630 ∷ 0x76d7 ∷ 0x66f6 ∷ 0x5695 ∷ 0x46b4 ∷ 0xb75b ∷ 0xa77a ∷ 0x9719 ∷ 0x8738 ∷ 0xf7df
    ∷ 0xe7fe ∷ 0xd79d ∷ 0xc7bc ∷ 0x48c4 ∷ 0x58e5 ∷ 0x6886 ∷ 0x78a7 ∷ 0x0840 ∷ 0x1861 ∷ 0x2802
    ∷ 0x3823 ∷ 0xc9cc ∷ 0xd9ed ∷ 0xe98e ∷ 0xf9af ∷ 0x8948 ∷ 0x9969 ∷ 0xa90a ∷ 0xb92b ∷ 0x5af5
    ∷ 0x4ad4 ∷ 0x7ab7 ∷ 0x6a96 ∷ 0x1a71 ∷ 0x0a50 ∷ 0x3a33 ∷ 0x2a12 ∷ 0xdbfd ∷ 0xcbdc ∷ 0xfbbf
    ∷ 0xeb9e ∷ 0x9b79 ∷ 0x8b58 ∷ 0xbb3b ∷ 0xab1a ∷ 0x6ca6 ∷ 0x7c87 ∷ 0x4ce4 ∷ 0x5cc5 ∷ 0x2c22
    ∷ 0x3c03 ∷ 0x0c60 ∷ 0x1c41 ∷ 0xedae ∷ 0xfd8f ∷ 0xcdec ∷ 0xddcd ∷ 0xad2a ∷ 0xbd0b ∷ 0x8d68
    ∷ 0x9d49 ∷ 0x7e97 ∷ 0x6eb6 ∷ 0x5ed5 ∷ 0x4ef4 ∷ 0x3e13 ∷ 0x2e32 ∷ 0x1e51 ∷ 0x0e70 ∷ 0xff9f
    ∷ 0xefbe ∷ 0xdfdd ∷ 0xcffc ∷ 0xbf1b ∷ 0xaf3a ∷ 0x9f59 ∷ 0x8f78 ∷ 0x9188 ∷ 0x81a9 ∷ 0xb1ca
    ∷ 0xa1eb ∷ 0xd10c ∷ 0xc12d ∷ 0xf14e ∷ 0xe16f ∷ 0x1080 ∷ 0x00a1 ∷ 0x30c2 ∷ 0x20e3 ∷ 0x5004
    ∷ 0x4025 ∷ 0x7046 ∷ 0x6067 ∷ 0x83b9 ∷ 0x9398 ∷ 0xa3fb ∷ 0xb3da ∷ 0xc33d ∷ 0xd31c ∷ 0xe37f
    ∷ 0xf35e ∷ 0x02b1 ∷ 0x1290 ∷ 0x22f3 ∷ 0x32d2 ∷ 0x4235 ∷ 0x5214 ∷ 0x6277 ∷ 0x7256 ∷ 0xb5ea
    ∷ 0xa5cb ∷ 0x95a8 ∷ 0x8589 ∷ 0xf56e ∷ 0xe54f ∷ 0xd52c ∷ 0xc50d ∷ 0x34e2 ∷ 0x24c3 ∷ 0x14a0
    ∷ 0x0481 ∷ 0x7466 ∷ 0x6447 ∷ 0x5424 ∷ 0x4405 ∷ 0xa7db ∷ 0xb7fa ∷ 0x8799 ∷ 0x97b8 ∷ 0xe75f
    ∷ 0xf77e ∷ 0xc71d ∷ 0xd73c ∷ 0x26d3 ∷ 0x36f2 ∷ 0x0691 ∷ 0x16b0 ∷ 0x6657 ∷ 0x7676 ∷ 0x4615
    ∷ 0x5634 ∷ 0xd94c ∷ 0xc96d ∷ 0xf90e ∷ 0xe92f ∷ 0x99c8 ∷ 0x89e9 ∷ 0xb98a ∷ 0xa9ab ∷ 0x5844
    ∷ 0x4865 ∷ 0x7806 ∷ 0x6827 ∷ 0x18c0 ∷ 0x08e1 ∷ 0x3882 ∷ 0x28a3 ∷ 0xcb7d ∷ 0xdb5c ∷ 0xeb3f
    ∷ 0xfb1e ∷ 0x8bf9 ∷ 0x9bd8 ∷ 0xabbb ∷ 0xbb9a ∷ 0x4a75 ∷ 0x5a54 ∷ 0x6a37 ∷ 0x7a16 ∷ 0x0af1
    ∷ 0x1ad0 ∷ 0x2ab3 ∷ 0x3a92 ∷ 0xfd2e ∷ 0xed0f ∷ 0xdd6c ∷ 0xcd4d ∷ 0xbdaa ∷ 0xad8b ∷ 0x9de8
    ∷ 0x8dc9 ∷ 0x7c26 ∷ 0x6c07 ∷ 0x5c64 ∷ 0x4c45 ∷ 0x3ca2 ∷ 0x2c83 ∷ 0x1ce0 ∷ 0x0cc1 ∷ 0xef1f
    ∷ 0xff3e ∷ 0xcf5d ∷ 0xdf7c ∷ 0xaf9b ∷ 0xbfba ∷ 0x8fd9 ∷ 0x9ff8 ∷ 0x6e17 ∷ 0x7e36 ∷ 0x4e55
    ∷ 0x5e74 ∷ 0x2e93 ∷ 0x3eb2 ∷ 0x0ed1 ∷ 0x1ef0 ∷ []

-- One byte: `crc = (crc << 8) ^ table[((crc >> 8) ^ byte) & 0xff]`, on 16 bits.
unfoldable pub crc_byte : ℕ → ℕ → ℕ
crc_byte crc byte =
    bit_xor (crc * 256 % 2 ^ 16) (get_or xmodemcrc16lookup (bit_xor (crc / 256) byte % 256) 0)

unfoldable pub crc_from : ℕ → Bytes → ℕ
unfolding crc_byte
crc_from crc [] = crc
crc_from crc (b ∷ bs) = crc_from (crc_byte crc b) bs

unfoldable pub crc16 : Bytes → ℕ
unfolding crc_from
crc16 key = crc_from 0 key

-- What the slot is computed from: the text between the first left brace and the next right brace,
-- if there is any, and the whole key otherwise.
unfoldable pub hashed_part : Bytes → Bytes
unfolding find_from
hashed_part key = elim (find_from b'{' 0 key) [
  | none ↦ key
  | some left ↦ elim (find_from b'}' (left + 1) key) [
    | none ↦ key
    | some right ↦
        if ltb 0 (right - left - 1) then take (right - left - 1) (drop (left + 1) key) else key
  ]
]

unfoldable pub get_slot : Bytes → ℕ
unfolding hashed_part crc16
get_slot key = crc16 (hashed_part key) % 16384

-- The `i`-th octet from the left of a `uint32_t`.
abbrev pub octet : ℕ → ℕ → ℕ
octet ip i = ip / 2 ^ (8 * (3 - i)) % 256

-- The text that `uint32toip` writes into the buffer, in front of the final NUL.
unfoldable pub ip_text : ℕ → Bytes
unfolding to_chars
ip_text ip =
    to_chars (octet ip 0)
    ++ (b'.'
        ∷ (to_chars (octet ip 1)
            ++ (b'.' ∷ (to_chars (octet ip 2) ++ (b'.' ∷ to_chars (octet ip 3))))))

-- `uint32toip`: the buffer's text and the length returned, `ptr - buffer - 1`.
unfoldable pub uint32toip : ℕ → Bytes × ℕ
unfolding ip_text
uint32toip ip = (ip_text ip, length (ip_text ip) - 1)

-- The rounds of `iptouint32`, for `i` = `n - 1` down to 0. A byte past the end of the view is read
-- as NUL, so that it is no dot.
unfoldable pub octets_from : ℕ → ℕ → Bytes → Option (ℕ × Bytes)
unfolding from_chars scan
octets_from zero result bs = some (result, bs)
octets_from (suc zero) result bs = elim (from_chars 255 bs) [
  | scanned o rest ↦ some (result + o, rest)
  | _ ↦ none
]
octets_from (suc (suc i)) result bs = elim (from_chars 255 bs) [
  | scanned o rest ↦ elim rest [
    | [] ↦ none
    | c ∷ cs ↦ if c == b'.' then octets_from (suc i) (result + o * 2 ^ (8 * suc i)) cs else none
  ]
  | _ ↦ none
]

-- The whole text must be read; 0 stands for a text that is no address.
unfoldable pub finish_ip : Option (ℕ × Bytes) → ℕ
finish_ip none = 0
finish_ip (some (result, [])) = result
finish_ip (some (result, c ∷ cs)) = 0

unfoldable pub iptouint32 : Bytes → ℕ
unfolding octets_from finish_ip
iptouint32 bs = finish_ip (octets_from 4 0 bs)
