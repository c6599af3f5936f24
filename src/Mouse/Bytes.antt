-- ===== src/Mouse/Bytes.antt =====
-- kernel/src/devices/keyboard_mouse/mouse.rs and libraries/kernel_user_link/src/mouse.rs: from the
-- packet of the mouse to the event that a program reads.
use emerald.Prelude.{
  ℕ, ◌+◌, ◌-◌, ◌*◌, ◌/◌, ◌%◌, ◌<◌, ◌≡◌, refl, ap, ◌∙◌, Bool, true, false, ◌||◌, none, some, ok,
  ◌>>=◌, if◌then◌else◌, arith, inl, inr, Bool-cases,
}
use emerald.Mouse.{
  ScrollType, no_scroll, vertical_up, vertical_down, horizontal_right, horizontal_negative,
  MouseEvent, Packet, bit, extend, handle_mouse_data, scroll_number, as_bytes, scroll_of,
  from_bytes,
}

-- Fields that their types can hold.
pub record InRange (e : MouseEvent) : Type 0 where
  pub x_lt : e.x < 65536
  pub y_lt : e.y < 65536
  pub buttons_lt : e.buttons < 32

scroll_of-number :
    (s : ScrollType) (low : ℕ)
    → low < 32
    → scroll_of ((low + scroll_number s * 32 % 256) / 32) ≡ ok s
unfolding scroll_of
scroll_of-number no_scroll low h = ground (arith, h)
scroll_of-number vertical_up low h = ground (arith, h)
scroll_of-number vertical_down low h = ground (arith, h)
scroll_of-number horizontal_right low h = ground (arith, h)
scroll_of-number horizontal_negative low h = ground (arith, h)

scroll-low : (s : ScrollType) (low : ℕ) → low < 32 → (low + scroll_number s * 32 % 256) % 32 ≡ low
scroll-low s low h = omega (arith, h)

-- An event is read as it was written, whatever its scroll type is.
pub from_bytes-as_bytes : (e : MouseEvent) → InRange e → from_bytes (as_bytes e) ≡ ok e
unfolding from_bytes as_bytes
from_bytes-as_bytes e r =
    ap (λ o. o >>= λ s. ok (event s))
      (scroll_of-number e.scroll_type (e.buttons % 32) (omega arith))
    ∙ λ i.
        ok (record {
          x = x_lem i;
          y = y_lem i;
          scroll_type = e.scroll_type;
          buttons = buttons_lem i;
        })
  where
    event : ScrollType → MouseEvent
    event s = record {
      x = e.x % 256 + e.x / 256 % 256 * 256;
      y = e.y % 256 + e.y / 256 % 256 * 256;
      scroll_type = s;
      buttons = (e.buttons % 32 + scroll_number e.scroll_type * 32 % 256) % 32;
    }

    x_lem : e.x % 256 + e.x / 256 % 256 * 256 ≡ e.x
    x_lem = omega (arith, r.x_lt)

    y_lem : e.y % 256 + e.y / 256 % 256 * 256 ≡ e.y
    y_lem = omega (arith, r.y_lt)

    buttons_lem : (e.buttons % 32 + scroll_number e.scroll_type * 32 % 256) % 32 ≡ e.buttons
    buttons_lem = omega (arith, r.buttons_lt)

-- The bytes of a packet.
pub record IsPacket (p : Packet) : Type 0 where
  pub flags_lt : p.flags < 256
  pub dx_lt : p.dx < 256
  pub dy_lt : p.dy < 256
  pub extra_lt : p.extra < 256

-- A displacement of 9 bits, the sign apart, as a number of 16 bits in two's complement.
abbrev pub nine_bits : ℕ → Bool → ℕ
nine_bits byte sign = (byte + 65536 - (if sign then 256 else 0)) % 65536

extend-nine_bits : (byte : ℕ) (sign : Bool) → byte < 256 → extend byte sign ≡ nine_bits byte sign
unfolding extend
extend-nine_bits byte true h = omega (arith, h)
extend-nine_bits byte false h = omega (arith, h)

-- A packet without an overflow becomes an event with the two displacements in two's complement, and a
-- program that reads the event's bytes gets it; a packet with an overflow is ignored.
pub handle_mouse_data-from_bytes :
    (has_extra_byte : Bool) (p : Packet)
    → IsPacket p
    → (if bit p.flags 6 || bit p.flags 7
        then handle_mouse_data has_extra_byte p ≡ none
        else (e : MouseEvent) × (handle_mouse_data has_extra_byte p ≡ some e)
          × (e.x ≡ nine_bits p.dx (bit p.flags 4))
          × (e.y ≡ nine_bits p.dy (bit p.flags 5))
          × (from_bytes (as_bytes e) ≡ ok e))
unfolding handle_mouse_data
handle_mouse_data-from_bytes has_extra_byte p r =
    elim (Bool-cases (bit p.flags 6 || bit p.flags 7)) [
      | inl over ↦ rw over refl
      | inr fits ↦
          let x_lem = extend-nine_bits p.dx (bit p.flags 4) r.dx_lt in
          let y_lem = extend-nine_bits p.dy (bit p.flags 5) r.dy_lt in
          rw fits (
            _,
            refl,
            x_lem,
            y_lem,
            from_bytes-as_bytes _ (record {
              x_lt = omega (arith, x_lem);
              y_lt = omega (arith, y_lem);
              buttons_lt = omega arith;
            }),
          )
    ]
