-- ===== src/Cmdline.antt =====
-- kernel/src/cmdline/tokenizer.rs: `Tokenizer`. A text is the list of its characters, by their numbers.
pub mod Pairs
mod Examples
use emerald.Prelude.{
  ℕ, ◌+◌, ◌-◌, Option, none, some, List, [], ◌∷◌, Bool, true, false, ◌&&◌, ◌||◌, not, Outcome, ok,
  ◌>>=◌, ◌==◌, if◌then◌else◌,
}
use emerald.Clock.Rtc.{checked_minus}

abbrev pub Text : Type 0
Text = List ℕ

-- What the tokenizer uses of Rust's `char`.
pub record Chars : Type 0 where
  pub is_alphanumeric : ℕ → Bool
  pub is_whitespace : ℕ → Bool
  pub len_utf8 : ℕ → ℕ

pub record Tokenizer : Type 0 where
  pub running_str : Text
  pub idx : ℕ

abbrev pub new : Text → Tokenizer
new inp = record { running_str = inp; idx = 0 }

-- The text before the first character of a pattern, and from there on.
abbrev pub split_at_first : (ℕ → Bool) → Text → Text × Text
split_at_first p [] = ([], [])
split_at_first p (c ∷ cs) =
    let (value, rest) = split_at_first p cs in if p c then ([], c ∷ cs) else (c ∷ value, rest)

abbrev pub trim_start_matches : (ℕ → Bool) → Text → Text
trim_start_matches p [] = []
trim_start_matches p (c ∷ cs) = let rest = trim_start_matches p cs in if p c then rest else c ∷ cs

abbrev pub trim_end_matches : (ℕ → Bool) → Text → Text
trim_end_matches p [] = []
trim_end_matches p (c ∷ cs) = elim (trim_end_matches p cs) [
  | [] ↦ if p c then [] else c ∷ []
  | d ∷ ds ↦ c ∷ d ∷ ds
]

module _ (chars : Chars) where
  -- The length of a text in bytes.
  abbrev pub len : Text → ℕ
  len [] = 0
  len (c ∷ cs) = chars.len_utf8 c + len cs

  -- `next_token` with the text split at the pattern. A difference of lengths below 0 panics.
  unfoldable pub take_token :
      (ℕ → Bool) → (ℕ → Bool) → Tokenizer → Text → Text → Outcome (Option (ℕ × Text) × Tokenizer)
  take_token starts strip t [] rest = ok (none, t)
  take_token starts strip t (v ∷ vs) [] = ok (none, t)
  take_token starts strip t (v ∷ vs) (c ∷ cs) =
      let value = v ∷ vs in
      let rest = c ∷ cs in
      let running = trim_start_matches strip cs in
      let trimmed = trim_start_matches chars.is_whitespace value in
      if starts c
      then (checked_minus (len trimmed) (len value) >>= λ leading. ok (
        some (t.idx + leading, trim_end_matches chars.is_whitespace trimmed),
        record { running_str = running; idx = t.idx + (len value + (len rest - len running)) },
      ))
      else ok (none, t)

  unfoldable pub next_token :
      (ℕ → Bool) → (ℕ → Bool) → (ℕ → Bool) → Tokenizer → Outcome (Option (ℕ × Text) × Tokenizer)
  unfolding take_token
  next_token find starts strip t =
      let (value, rest) = split_at_first find t.running_str in take_token starts strip t value rest

  abbrev pub ends_ident : ℕ → Bool
  ends_ident c = not (chars.is_alphanumeric c) && (not (c == 44) && not (c == 95))

  abbrev pub is_equals : ℕ → Bool
  is_equals c = c == 61

  unfoldable pub next_ident : Tokenizer → Outcome (Option (ℕ × Text) × Tokenizer)
  unfolding next_token
  next_ident t = next_token ends_ident is_equals chars.is_whitespace t

  abbrev pub separates : ℕ → Bool
  separates c = chars.is_whitespace c || (c == 44)

  abbrev pub ends_value : ℕ → Bool
  ends_value c = chars.is_whitespace c || ((c == 44) || (c == 61))

  -- Where no value ends, it is the rest of the text.
  unfoldable pub next_value : Tokenizer → Outcome ((ℕ × Text) × Tokenizer)
  unfolding next_token
  next_value t = next_token ends_value separates separates t >>= λ r. elim (r.0) [
    | some token ↦ ok (token, r.1)
    | none ↦ ok (
      (r.1.idx, r.1.running_str),
      record { running_str = []; idx = r.1.idx + len r.1.running_str },
    )
  ]
