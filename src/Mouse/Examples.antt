-- ===== src/Mouse/Examples.antt =====
-- A packet of kernel/src/devices/keyboard_mouse/mouse.rs, and the theorems at it.
use emerald.Prelude.{◌+◌, ◌≡◌, refl, arith, true, false, some, none, ok}
use emerald.Mouse.{
  MouseEvent, Packet, vertical_down, handle_mouse_data, extend, scroll, as_bytes, from_bytes,
}
use emerald.Mouse.Bytes.{nine_bits, handle_mouse_data-from_bytes}

-- Left button, 3 to the left, 2 up, and the wheel down.
abbrev packet : Packet
packet = record { flags = 16 + 8 + 1; dx = 253; dy = 2; extra = 15 }

abbrev event : MouseEvent
event = record { x = 65533; y = 2; scroll_type = vertical_down; buttons = 1 }

packet-event : handle_mouse_data true packet ≡ some event
unfolding handle_mouse_data extend scroll
packet-event = refl

overflow : handle_mouse_data true (record packet { flags = 64 }) ≡ none
unfolding handle_mouse_data
overflow = refl

handle_mouse_data-from_bytes_example :
    (e : MouseEvent) × (handle_mouse_data true packet ≡ some e)
    × (e.x ≡ nine_bits 253 true)
    × (e.y ≡ nine_bits 2 false)
    × (from_bytes (as_bytes e) ≡ ok e)
handle_mouse_data-from_bytes_example = handle_mouse_data-from_bytes true packet (record {
  flags_lt = omega arith;
  dx_lt = omega arith;
  dy_lt = omega arith;
  extra_lt = omega arith;
})
