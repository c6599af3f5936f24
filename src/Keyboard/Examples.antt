-- ===== src/Keyboard/Examples.antt =====
-- Bytes of kernel/src/devices/keyboard_mouse/keyboard.rs, and the theorem at them.
use emerald.Prelude.{ℕ, ◌≡◌, refl, arith, true, false, some, List, [], ◌∷◌, map}
use emerald.Keyboard.{
  shift, caps_lock, Keyboard, modifiers, update, get_modifier, get_toggle, handle_keyboard_data,
  plain, key_type_from_device, lookup,
}
use emerald.Keyboard.Toggles.{run, stroke, strokes, state_of, run-strokes}

abbrev quiet : Keyboard
quiet = record { active_modifiers = λ _. false; active_toggles = λ _. false }

-- Caps lock goes down and repeats, an extended key, caps lock goes up, a letter with shift.
abbrev bytes : List (ℕ × ℕ)
bytes = (0x3A, 0) ∷ (0x3A, 0) ∷ (0xE0, 0x48) ∷ (0xBA, 0) ∷ (0x2A, 0) ∷ (0x1E, 0) ∷ (0xAA, 0) ∷ []

strokes-bytes :
    strokes caps_lock bytes (state_of caps_lock quiet)
    ≡ (true, 58, true)
      ∷ (true, 58, true)
      ∷ (true, 103, true)
      ∷ (false, 58, true)
      ∷ (true, 42, true)
      ∷ (true, 30, true)
      ∷ (false, 42, true)
      ∷ []
unfolding key_type_from_device lookup
strokes-bytes = refl

-- An extended key is sent once.
up_arrow :
    (handle_keyboard_data (some 0xE0) 0x48 quiet).0
    ≡ record { pressed = true; modifiers = modifiers quiet; key_type = 103 } ∷ []
unfolding handle_keyboard_data plain update get_modifier get_toggle key_type_from_device lookup
up_arrow = refl

run-strokes_example :
    map (stroke shift) (run bytes quiet).0 ≡ strokes shift bytes (state_of shift quiet)
run-strokes_example = run-strokes shift bytes quiet (ground arith)
