-- ===== src/Keyboard/Toggles.antt =====
-- kernel/src/devices/keyboard_mouse/keyboard.rs: the keys that any sequence of bytes sends.
use emerald.Prelude.{
  ℕ, ◌+◌, ◌%◌, ◌<◌, All, ==_iff, ◌≡◌, inl, inr, refl, sym, ap, ◌∙◌, Bool, true, false, ◌&&◌, ◌||◌,
  not, Option, none, some, List, [], ◌∷◌, ◌++◌, map, ltb, ◌==◌, if◌then◌else◌, Bool-cases,
  Option-cases, arith,
}
use mathlib.Core.List.{map-append}
use emerald.Keyboard.{
  Flag, shift, ctrl, alt, caps_lock, num_lock, scroll_lock, Keyboard, Key, is_lock, modifiers,
  get_modifier, get_toggle, key_type_from_device, update, plain, handle_keyboard_data,
}

-- A byte, with what a second read would return: the keys that are sent, in order, and the keyboard.
unfoldable pub run : List (ℕ × ℕ) → Keyboard → List Key × Keyboard
run [] k = ([], k)
run ((byte, second) ∷ rest) k =
    let (keys, k') = handle_keyboard_data (some byte) second k in
    let (keys', k'') = run rest k' in (keys ++ keys', k'')

-- Whether a byte is the code of a key that a flag is about; that of its release is 0x80 more.
abbrev pub is_code : Flag → ℕ → Bool
is_code shift byte = (byte == 0x2A) || (byte == 0x36)
is_code ctrl byte = byte == 0x1D
is_code alt byte = byte == 0x38
is_code caps_lock byte = byte == 0x3A
is_code num_lock byte = byte == 0x45
is_code scroll_lock byte = byte == 0x46

abbrev pub is_release : Flag → ℕ → Bool
is_release shift byte = (byte == 0xAA) || (byte == 0xB6)
is_release ctrl byte = byte == 0x9D
is_release alt byte = byte == 0xB8
is_release caps_lock byte = byte == 0xBA
is_release num_lock byte = byte == 0xC5
is_release scroll_lock byte = byte == 0xC6

-- Whether the key of a flag is down, and whether its light is on, after a byte: only a lock has a
-- light, which changes where the key goes down, and not where a key that is down repeats.
abbrev pub goes_on : Flag → ℕ → Bool × Bool → Bool × Bool
goes_on f byte (down, on) =
    if is_code f byte
    then (true, if is_lock f && not down then not on else on)
    else if is_release f byte
    then (false, on)
    else (down, on)

-- What a flag is where it is sent: the light of a lock, and whether the key of another is down.
abbrev pub shows : Flag → Bool × Bool → Bool
shows f (down, on) = if is_lock f then on else down || on

-- A key, as one flag of it is received: whether it is pressed, which key it is, and the flag.
abbrev pub Stroke : Type 0
Stroke = Bool × ℕ × Bool

abbrev pub stroke : Flag → Key → Stroke
stroke f key = (key.pressed, key.key_type, key.modifiers f)

abbrev pub stroke_of : Bool → Option ℕ → Bool → List Stroke
stroke_of pressed none flag = []
stroke_of pressed (some key) flag = (pressed, key, flag) ∷ []

-- The key of a byte: that of the second one after 0xE0.
abbrev pub strokes_of : ℕ → ℕ → Bool → List Stroke
strokes_of byte second flag =
    if byte == 0xE0
    then stroke_of (ltb second 0x80) (key_type_from_device (second % 0x80 + 0x80)) flag
    else stroke_of (ltb byte 0x80) (key_type_from_device (byte % 0x80)) flag

-- All keys of a sequence of bytes, each with the flag as it is after the byte.
abbrev pub strokes : Flag → List (ℕ × ℕ) → Bool × Bool → List Stroke
strokes f [] state = []
strokes f ((byte, second) ∷ rest) state =
    let state' = goes_on f byte state in
    strokes_of byte second (shows f state') ++ strokes f rest state'

abbrev pub state_of : Flag → Keyboard → Bool × Bool
state_of f k = (k.active_modifiers f, k.active_toggles f)

update-goes_on :
    (f : Flag) (byte : ℕ) (k : Keyboard)
    → byte < 256
    → state_of f (update (byte % 0x80) (ltb byte 0x80) k) ≡ goes_on f byte (state_of f k)
unfolding update get_modifier get_toggle
update-goes_on caps_lock byte k lt = ground (arith, lt)
update-goes_on num_lock byte k lt = ground (arith, lt)
update-goes_on scroll_lock byte k lt = ground (arith, lt)
update-goes_on shift byte k lt = ground (arith, lt)
update-goes_on ctrl byte k lt = ground (arith, lt)
update-goes_on alt byte k lt = ground (arith, lt)

modifiers-shows : (f : Flag) (k : Keyboard) → modifiers k f ≡ shows f (state_of f k)
unfolding modifiers
modifiers-shows shift k = ground arith
modifiers-shows ctrl k = ground arith
modifiers-shows alt k = ground arith
modifiers-shows caps_lock k = ground arith
modifiers-shows num_lock k = ground arith
modifiers-shows scroll_lock k = ground arith

-- One byte: the keys that it sends, and the state of a flag after it.
abbrev Sends : Flag → ℕ → ℕ → Keyboard → List Key × Keyboard → Type 0
Sends f byte second k (keys, k') =
    (map (stroke f) keys ≡ strokes_of byte second (shows f (goes_on f byte (state_of f k))))
    × (state_of f k' ≡ goes_on f byte (state_of f k))

plain-stroke :
    (f : Flag) (byte : ℕ) (k : Keyboard)
    → byte < 256
    → (map (stroke f) (plain byte k).0
        ≡ stroke_of
            (ltb byte 0x80)
            (key_type_from_device (byte % 0x80))
            (shows f (goes_on f byte (state_of f k))))
      × (state_of f (plain byte k).1 ≡ goes_on f byte (state_of f k))
unfolding plain
plain-stroke f byte k lt =
    let after = update (byte % 0x80) (ltb byte 0x80) k in
    let same = update-goes_on f byte k lt in
    let flag = modifiers-shows f after ∙ ap (shows f) same in
    elim (Option-cases (key_type_from_device (byte % 0x80))) [
      | inl no_key ↦ rw (plain, no_key) (refl, same)
      | inr (key, some_key) ↦
          rw (plain, some_key) (ap (λ b. (ltb byte 0x80, key, b) ∷ []) flag, same)
    ]

-- The byte 0xE0 is about no flag, and no key has it for its code.
extended-goes_on :
    (f : Flag) (byte : ℕ) (state : Bool × Bool)
    → (byte == 0xE0) ≡ true
    → goes_on f byte state ≡ state
extended-goes_on f byte state e = go f ((==_iff byte 0xE0).0 e)
  where
    go : (g : Flag) → byte ≡ 0xE0 → goes_on g byte state ≡ state
    go caps_lock same = rw same refl
    go num_lock same = rw same refl
    go scroll_lock same = rw same refl
    go shift same = rw same refl
    go ctrl same = rw same refl
    go alt same = rw same refl

extended-none : (byte : ℕ) → (byte == 0xE0) ≡ true → key_type_from_device (byte % 0x80) ≡ none
unfolding key_type_from_device
extended-none byte e = rw ((==_iff byte 0xE0).0 e) refl

handle-Sends :
    (f : Flag) (byte second : ℕ) (k : Keyboard)
    → byte < 256
    → Sends f byte second k (handle_keyboard_data (some byte) second k)
unfolding handle_keyboard_data
handle-Sends f byte second k lt =
    let (keys, state) = plain-stroke f byte k lt in
    elim (Bool-cases (byte == 0xE0)) [
      | inl extended ↦
          let still = extended-goes_on f byte (state_of f k) extended in
          let silent =
            keys
            ∙ ap (λ o. stroke_of (ltb byte 0x80) o (shows f (goes_on f byte (state_of f k))))
                (extended-none byte extended) in
          let flag = modifiers-shows f k ∙ ap (shows f) (sym still) in
          elim (Option-cases (key_type_from_device (second % 0x80 + 0x80))) [
            | inl no_key ↦ rw (extended, no_key) (refl, sym still)
            | inr (key, some_key) ↦
                rw (extended, some_key) (λ i. (ltb second 0x80, key, flag i) ∷ silent i, state)
          ]
      | inr other ↦ rw other (keys, state)
    ]

-- Over any sequence of bytes, from any state of the flags, the keys that are sent are exactly the
-- strokes of the bytes: for each byte that names a key that key, pressed or released, in order, with
-- each flag as it is after the byte. Shift, control and alt are on from a byte that presses a key of
-- theirs (either shift, the left control, the left alt) to the next that releases one; a lock is on
-- where its light is, which changes each time the key goes down, and not where it repeats or goes up.
pub run-strokes :
    (f : Flag) (bytes : List (ℕ × ℕ)) (k : Keyboard)
    → All (λ b. b.0 < 256) bytes
    → map (stroke f) (run bytes k).0 ≡ strokes f bytes (state_of f k)
unfolding run
run-strokes f [] k h = refl
run-strokes f ((byte, second) ∷ rest) k h =
    let r = handle_keyboard_data (some byte) second k in
    let (keys, state) = handle-Sends f byte second k h.0 in
    map-append (stroke f) r.0 (run rest r.1).0
    ∙ (λ i. keys i ++ (run-strokes f rest r.1 h.1 ∙ ap (strokes f rest) state) i)
