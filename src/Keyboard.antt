-- ===== src/Keyboard.antt =====
-- kernel/src/devices/keyboard_mouse/keyboard.rs: the state of the keyboard, and what a byte from it
-- does. A byte of flags is a Boolean for each flag; a key is its number in the enumeration `KeyType`
-- of libraries/kernel_user_link/src/keyboard.rs.
pub mod Toggles
mod Examples
use emerald.Prelude.{
  ℕ, ◌+◌, ◌-◌, ◌%◌, ◌/◌, Bool, true, false, ◌&&◌, ◌||◌, not, Option, none, some, List, [], ◌∷◌,
  ◌++◌, ltb, leb, ◌==◌, if◌then◌else◌,
}

pub data Flag : Type 0 where
  shift ctrl alt caps_lock num_lock scroll_lock : Flag

abbrev pub Flags : Type 0
Flags = Flag → Bool

abbrev pub is_same : Flag → Flag → Bool
is_same shift shift = true
is_same ctrl ctrl = true
is_same alt alt = true
is_same caps_lock caps_lock = true
is_same num_lock num_lock = true
is_same scroll_lock scroll_lock = true
is_same _ _ = false

-- `fetch_or` with a flag, or `fetch_and` with its complement.
abbrev pub put : Flags → Flag → Bool → Flags
put flags flag value f = if is_same flag f then value else flags f

-- `fetch_xor`
abbrev pub flip : Flags → Flag → Flags
flip flags flag f = if is_same flag f then not (flags f) else flags f

pub record Keyboard : Type 0 where
  pub active_modifiers : Flags
  pub active_toggles : Flags

pub record Key : Type 0 where
  pub pressed : Bool
  pub modifiers : Flags
  pub key_type : ℕ

abbrev pub is_lock : Flag → Bool
is_lock caps_lock = true
is_lock num_lock = true
is_lock scroll_lock = true
is_lock _ = false

-- `modifiers`: the flags of the locks that are kept with the modifiers are left out.
unfoldable pub modifiers : Keyboard → Flags
modifiers k f = (k.active_modifiers f && not (is_lock f)) || k.active_toggles f

unfoldable pub get_modifier : ℕ → Option Flag
get_modifier key =
    if key == 0x2A
    then some shift
    else if key == 0x36
    then some shift
    else if key == 0x1D
    then some ctrl
    else if key == 0x38
    then some alt
    else none

unfoldable pub get_toggle : ℕ → Option Flag
get_toggle key =
    if key == 0x3A
    then some caps_lock
    else if key == 0x45
    then some num_lock
    else if key == 0x46
    then some scroll_lock
    else none

-- Codes of extended keys, with the numbers of the keys.
abbrev pub extended_keys : List (ℕ × ℕ)
extended_keys =
    (0x10, 89)
    ∷ (0x19, 90)
    ∷ (0x1C, 91)
    ∷ (0x1D, 92)
    ∷ (0x20, 93)
    ∷ (0x21, 94)
    ∷ (0x22, 95)
    ∷ (0x24, 96)
    ∷ (0x2E, 97)
    ∷ (0x30, 98)
    ∷ (0x32, 99)
    ∷ (0x35, 100)
    ∷ (0x38, 101)
    ∷ (0x47, 102)
    ∷ (0x48, 103)
    ∷ (0x49, 104)
    ∷ (0x4B, 105)
    ∷ (0x4D, 106)
    ∷ (0x4F, 107)
    ∷ (0x50, 108)
    ∷ (0x51, 109)
    ∷ (0x52, 110)
    ∷ (0x53, 111)
    ∷ (0x5B, 112)
    ∷ (0x5C, 113)
    ∷ (0x5D, 114)
    ∷ (0x5E, 115)
    ∷ (0x5F, 116)
    ∷ (0x63, 117)
    ∷ (0x65, 118)
    ∷ (0x66, 119)
    ∷ (0x67, 120)
    ∷ (0x68, 121)
    ∷ (0x69, 122)
    ∷ (0x6A, 123)
    ∷ (0x6B, 124)
    ∷ (0x6C, 125)
    ∷ (0x6D, 126)
    ∷ []

unfoldable pub lookup : List (ℕ × ℕ) → ℕ → Option ℕ
lookup [] key = none
lookup ((code, number) ∷ rest) key = if code == key then some number else lookup rest key

abbrev pub f12 : ℕ
f12 = 88

-- 0, 84, 85 and 86 are the keys `_None1` to `_None4`.
unfoldable pub key_type_from_device : ℕ → Option ℕ
key_type_from_device value =
    if ltb value 0x80
    then if leb value f12
      then if (value == 0) || (value == 84) || (value == 85) || (value == 86)
        then none
        else some value
      else none
    else lookup extended_keys (value % 0x80)

-- The flags after a byte without its top bit.
unfoldable pub update : ℕ → Bool → Keyboard → Keyboard
update byte pressed k = elim (get_modifier byte) [
  | some flag ↦ record k { active_modifiers = put k.active_modifiers flag pressed }
  | none ↦ elim (get_toggle byte) [
    | none ↦ k
    | some flag ↦ record {
      active_modifiers = put k.active_modifiers flag pressed;
      active_toggles =
          if pressed && not (k.active_modifiers flag)
          then flip k.active_toggles flag
          else k.active_toggles;
    }
  ]
]

-- What is done for every byte: the flags, and the key that is sent.
unfoldable pub plain : ℕ → Keyboard → List Key × Keyboard
plain byte k =
    let pressed = ltb byte 0x80 in
    let k' = update (byte % 0x80) pressed k in
    elim (key_type_from_device (byte % 0x80)) [
      | none ↦ ([], k')
      | some key ↦ (record { pressed = pressed; modifiers = modifiers k'; key_type = key } ∷ [], k')
    ]

-- `first` is `none` where the controller has no data; `second` is what the second read returns. After
-- an extended key the code goes on with the byte 0xE0.
unfoldable pub handle_keyboard_data : Option ℕ → ℕ → Keyboard → List Key × Keyboard
unfolding plain
handle_keyboard_data none second k = ([], k)
handle_keyboard_data (some byte) second k =
    if byte == 0xE0
    then elim (key_type_from_device (second % 0x80 + 0x80)) [
      | none ↦ ([], k)
      | some key ↦
          let (keys, k') = plain byte k in
          (record { pressed = ltb second 0x80; modifiers = modifiers k; key_type = key } ∷ keys, k')
    ]
    else plain byte k
