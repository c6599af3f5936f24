-- ===== src/Mouse.antt =====
-- kernel/src/devices/keyboard_mouse/mouse.rs: what the kernel makes of a packet of the mouse; and the
-- bytes of an event in libraries/kernel_user_link/src/mouse.rs. An `i16` is its 16 bits.
pub mod Bytes
mod Examples
use emerald.Prelude.{
  ℕ, ◌+◌, ◌*◌, ◌/◌, ◌%◌, ◌^◌, Bool, true, false, ◌||◌, Option, none, some, Outcome, ok, panic,
  undefined, ◌>>=◌, ◌==◌, if◌then◌else◌,
}

pub data ScrollType : Type 0 where
  no_scroll vertical_up vertical_down horizontal_right horizontal_negative : ScrollType

pub record MouseEvent : Type 0 where
  pub x : ℕ
  pub y : ℕ
  pub scroll_type : ScrollType
  pub buttons : ℕ

-- The bytes that are read from the controller, the last one only where the mouse sends it.
pub record Packet : Type 0 where
  pub flags : ℕ
  pub dx : ℕ
  pub dy : ℕ
  pub extra : ℕ

abbrev pub bit : ℕ → ℕ → Bool
bit byte i = byte / 2 ^ i % 2 == 1

-- `x |= 0xFF00` where the sign is set.
unfoldable pub extend : ℕ → Bool → ℕ
extend byte sign = if sign then byte + 0xFF00 else byte

unfoldable pub scroll : ℕ → ScrollType
scroll low =
    if low == 1
    then vertical_up
    else if low == 15
    then vertical_down
    else if low == 2
    then horizontal_right
    else if low == 14
    then horizontal_negative
    else no_scroll

-- The event that is sent; `none` where the packet is ignored.
unfoldable pub handle_mouse_data : Bool → Packet → Option MouseEvent
unfolding extend scroll
handle_mouse_data has_extra_byte p =
    let last = if has_extra_byte then p.extra else 0 in
    if bit p.flags 6 || bit p.flags 7
    then none
    else some (record {
      x = extend p.dx (bit p.flags 4);
      y = extend p.dy (bit p.flags 5);
      scroll_type = scroll (last % 16);
      buttons = p.flags % 8 + last / 16 % 4 * 8;
    })

-- The number of a scroll type.
abbrev pub scroll_number : ScrollType → ℕ
scroll_number no_scroll = 0
scroll_number vertical_up = 1
scroll_number vertical_down = 2
scroll_number horizontal_right = 3
scroll_number horizontal_negative = 4

pub record EventBytes : Type 0 where
  pub b0 : ℕ
  pub b1 : ℕ
  pub b2 : ℕ
  pub b3 : ℕ
  pub b4 : ℕ

unfoldable pub as_bytes : MouseEvent → EventBytes
as_bytes e = record {
  b0 = e.x % 256;
  b1 = e.x / 256 % 256;
  b2 = e.y % 256;
  b3 = e.y / 256 % 256;
  b4 = e.buttons % 32 + scroll_number e.scroll_type * 32 % 256;
}

unfoldable pub scroll_of : ℕ → Outcome ScrollType
scroll_of n =
    if n == 0
    then ok no_scroll
    else if n == 1
    then ok vertical_up
    else if n == 2
    then ok vertical_down
    else if n == 3
    then ok horizontal_right
    else if n == 4
    then ok horizontal_negative
    else panic

unfoldable pub from_bytes : EventBytes → Outcome MouseEvent
unfolding scroll_of
from_bytes b = do
  scroll_type ← scroll_of (b.b4 / 32)
  ok (record {
    x = b.b0 + b.b1 * 256;
    y = b.b2 + b.b3 * 256;
    scroll_type = scroll_type;
    buttons = b.b4 % 32;
  })
