-- ===== src/Cmdline/Pairs.antt =====
-- kernel/src/cmdline/tokenizer.rs: the tokens of a command line of keys and values.
use emerald.Prelude.{
  ℕ, zero, suc, ◌+◌, ◌-◌, ◌≡◌, refl, ap, ◌∙◌, Option, none, some, List, [], ◌∷◌, ◌++◌, length, All,
  Bool, true, false, ◌&&◌, ◌||◌, not, Outcome, ok, ◌>>=◌, bind-ok, ◌==◌, if◌then◌else◌, arith,
}
use emerald.Clock.Rtc.{checked_minus}
use emerald.Cmdline.{
  Text, Chars, Tokenizer, split_at_first, trim_start_matches, trim_end_matches, len, take_token,
  next_token, ends_ident, is_equals, next_ident, separates, ends_value, next_value,
}

-- No character of a text has a property.
abbrev pub Lacks : (ℕ → Bool) → Text → Type 0
Lacks p cs = All (λ c. p c ≡ false) cs

-- A text begins with a character that does not have it.
abbrev pub Begins : (ℕ → Bool) → Text → Type 0
Begins p [] = ⊥
Begins p (c ∷ cs) = p c ≡ false

split_at_first-append :
    (p : ℕ → Bool) (cs : Text) (d : ℕ) (ds : Text)
    → Lacks p cs
    → p d ≡ true
    → split_at_first p (cs ++ d ∷ ds) ≡ (cs, d ∷ ds)
split_at_first-append p [] d ds l h = rw h refl
split_at_first-append p (c ∷ cs) d ds (l, ls) h = rw (l, split_at_first-append p cs d ds ls h) refl

trim_start_matches-Begins : (p : ℕ → Bool) (cs : Text) → Begins p cs → trim_start_matches p cs ≡ cs
trim_start_matches-Begins p [] b = absurd b
trim_start_matches-Begins p (c ∷ cs) b = rw b refl

trim_end_matches-Lacks : (p : ℕ → Bool) (cs : Text) → Lacks p cs → trim_end_matches p cs ≡ cs
trim_end_matches-Lacks p [] l = refl
trim_end_matches-Lacks p (c ∷ []) (l, ls) = rw l refl
trim_end_matches-Lacks p (c ∷ d ∷ ds) (l, ls) = rw (trim_end_matches-Lacks p (d ∷ ds) ls) refl

minus_self : (n : ℕ) → checked_minus n n ≡ ok 0
minus_self n = ground arith

-- A command line: the pairs with `=` inside, and blanks between them.
abbrev pub print : List (Text × Text) → Text
print [] = []
print ((key, value) ∷ []) = key ++ 61 ∷ value
print ((key, value) ∷ p ∷ ps) = key ++ 61 ∷ (value ++ 32 ∷ print (p ∷ ps))

module _ (chars : Chars) where
  -- A token up to a character that ends it, and starts the gap to the rest.
  next_token-append :
      (find starts strip : ℕ → Bool) (v : ℕ) (vs : Text) (c : ℕ) (cs : Text) (idx : ℕ)
      → Lacks find (v ∷ vs)
      → Lacks chars.is_whitespace (v ∷ vs)
      → find c ≡ true
      → starts c ≡ true
      → let running = trim_start_matches strip cs in
        next_token chars find starts strip (record { running_str = v ∷ vs ++ c ∷ cs; idx = idx })
        ≡ ok (
          some (idx, v ∷ vs),
          record {
            running_str = running;
            idx = idx + (len chars (v ∷ vs) + (len chars (c ∷ cs) - len chars running));
          },
        )
  unfolding next_token take_token
  next_token-append find starts strip v vs c cs idx l w f s =
      let value = v ∷ vs in
      let running = trim_start_matches strip cs in
      let t : Tokenizer = record { running_str = value ++ c ∷ cs; idx = idx } in
      let next : Tokenizer = record {
        running_str = running;
        idx = idx + (len chars value + (len chars (c ∷ cs) - len chars running));
      } in
      ap (λ vr. take_token chars starts strip t vr.0 vr.1)
        (split_at_first-append find value c cs l f)
      ∙ ap
          (λ b.
            if b
            then taken value next (trim_start_matches chars.is_whitespace value)
            else ok (none, t))
          s
      ∙ ap (taken value next) (trim_start_matches-Begins chars.is_whitespace value w.0)
      ∙ bind-ok (checked_minus (len chars value) (len chars value)) 0 _
          (minus_self (len chars value))
      ∙ (λ i.
          ok (some (right_zero idx i, trim_end_matches-Lacks chars.is_whitespace value w i), next))
    where
      taken : Text → Tokenizer → Text → Outcome (Option (ℕ × Text) × Tokenizer)
      taken value next trimmed = checked_minus (len chars trimmed) (len chars value) >>= λ leading.
          ok (some (idx + leading, trim_end_matches chars.is_whitespace trimmed), next)

      right_zero : (n : ℕ) → n + 0 ≡ n
      right_zero n = omega arith

  -- A key and then its value, while there are keys, as the loop of the parser asks for them. It runs on
  -- fuel.
  abbrev pub read_pairs : ℕ → Tokenizer → Outcome (List (Text × Text) × Tokenizer)
  read_pairs zero t = ok ([], t)
  read_pairs (suc n) t = next_ident chars t >>= λ ident. elim (ident.0) [
    | none ↦ ok ([], ident.1)
    | some key ↦ next_value chars ident.1 >>= λ value.
        read_pairs n value.1 >>= λ r. ok ((key.1, value.0.1) ∷ r.0, r.1)
  ]

  abbrev pub IsKey : Text → Type 0
  IsKey [] = ⊥
  IsKey (c ∷ cs) = Lacks (ends_ident chars) (c ∷ cs) × Lacks (separates chars) (c ∷ cs)

  abbrev pub IsValue : Text → Type 0
  IsValue [] = ⊥
  IsValue (c ∷ cs) = Lacks (ends_value chars) (c ∷ cs)

  abbrev pub IsPair : Text × Text → Type 0
  IsPair (key, value) = IsKey key × IsValue value

  -- `=` is no letter, and a blank is white space.
  abbrev pub IsUsual : Type 0
  IsUsual = (chars.is_alphanumeric 61 ≡ false) × (chars.is_whitespace 32 ≡ true)

  or_left : (a b : Bool) → (a || b) ≡ false → a ≡ false
  or_left false b h = refl
  or_left true b h = h

  Lacks-left :
      (q : ℕ → Bool) (cs : Text)
      → Lacks (λ c. chars.is_whitespace c || q c) cs
      → Lacks chars.is_whitespace cs
  Lacks-left q [] l = tt
  Lacks-left q (c ∷ cs) (l, ls) = (or_left (chars.is_whitespace c) (q c) l, Lacks-left q cs ls)

  -- The tokenizer at a text.
  abbrev at : Text → ℕ → Tokenizer
  at cs n = record { running_str = cs; idx = n }

  next_ident-key :
      (k : ℕ) (ks rest : Text) (n : ℕ)
      → IsUsual
      → IsKey (k ∷ ks)
      → Begins chars.is_whitespace rest
      → (n' : ℕ) × (next_ident chars (at (k ∷ ks ++ 61 ∷ rest) n)
          ≡ ok (some (n, k ∷ ks), at rest n'))
  unfolding next_ident
  next_ident-key k ks rest n (no_letter, blank) (l, w) b = (
    _,
    next_token-append (ends_ident chars) (is_equals chars) chars.is_whitespace k ks 61 rest n l
          (Lacks-left (λ c. c == 44) (k ∷ ks) w) (ap (λ a. not a && true) no_letter) refl
        ∙ (λ i. ok (
          some (n, k ∷ ks),
          at (trim_start_matches-Begins chars.is_whitespace rest b i) (
              n
              + (len chars (k ∷ ks)
                  + (len chars (61 ∷ rest)
                      - len chars (trim_start_matches-Begins chars.is_whitespace rest b i)))),
        )),
  )

  next_value-value :
      (v : ℕ) (vs rest : Text) (n : ℕ)
      → IsUsual
      → IsValue (v ∷ vs)
      → Begins (separates chars) rest
      → (n' : ℕ) × (next_value chars (at (v ∷ vs ++ 32 ∷ rest) n) ≡ ok ((n, v ∷ vs), at rest n'))
  unfolding next_value
  next_value-value v vs rest n (no_letter, blank) l b = (
    _,
    bind-ok _ _ _ (
          next_token-append (ends_value chars) (separates chars) (separates chars) v vs 32 rest n l
            (Lacks-left (λ c. (c == 44) || (c == 61)) (v ∷ vs) l) (ap (λ a. a || false) blank)
            (ap (λ a. a || false) blank))
        ∙ (λ i. ok (
          (n, v ∷ vs),
          at (trim_start_matches-Begins (separates chars) rest b i) (
              n
              + (len chars (v ∷ vs)
                  + (len chars (32 ∷ rest)
                      - len chars (trim_start_matches-Begins (separates chars) rest b i)))),
        )),
  )

  split_at_first-Lacks : (p : ℕ → Bool) (cs : Text) → Lacks p cs → split_at_first p cs ≡ (cs, [])
  split_at_first-Lacks p [] l = refl
  split_at_first-Lacks p (c ∷ cs) (l, ls) = rw (l, split_at_first-Lacks p cs ls) refl

  -- The last value.
  next_value-last :
      (v : ℕ) (vs : Text) (n : ℕ)
      → IsValue (v ∷ vs)
      → (n' : ℕ) × (next_value chars (at (v ∷ vs) n) ≡ ok ((n, v ∷ vs), at [] n'))
  unfolding next_value next_token take_token
  next_value-last v vs n l = (
    _,
    bind-ok _ _ _ (
        ap (λ vr. take_token chars (separates chars) (separates chars) (at (v ∷ vs) n) vr.0 vr.1)
          (split_at_first-Lacks (ends_value chars) (v ∷ vs) l)),
  )

  print-Begins :
      (p : Text × Text) (ps : List (Text × Text))
      → IsPair p
      → Begins (separates chars) (print (p ∷ ps))
  print-Begins ([], value) ps (b, v) = absurd b
  print-Begins (k ∷ ks, value) [] ((l, w), v) = w.0
  print-Begins (k ∷ ks, value) (q ∷ ps) ((l, w), v) = w.0

  value-Begins :
      (v : ℕ) (vs rest : Text) → IsValue (v ∷ vs) → Begins chars.is_whitespace (v ∷ vs ++ rest)
  value-Begins v vs rest (l, ls) = or_left (chars.is_whitespace v) ((v == 44) || (v == 61)) l

  -- A command line of keys and values, with `=` between a key and its value and a blank between the
  -- pairs, is read back: where each key is not empty, of letters, digits and `_`, and each value is
  -- not empty, without white space, `,` and `=`, the loop with one round more than the pairs does not
  -- panic, returns the pairs, and has read all of the text.
  pub read_pairs-print :
      (ps : List (Text × Text)) (n : ℕ)
      → IsUsual
      → All IsPair ps
      → (n' : ℕ) × (read_pairs (suc (length ps)) (at (print ps) n) ≡ ok (ps, at [] n'))
  unfolding next_ident next_token take_token
  read_pairs-print [] n u h = (n, refl)
  read_pairs-print (([], value) ∷ ps) n u (h, hs) = absurd h.0
  read_pairs-print ((k ∷ ks, []) ∷ ps) n u (h, hs) = absurd h.1
  read_pairs-print ((k ∷ ks, v ∷ vs) ∷ []) n u ((key, value), hs) =
      let (n₁, e₁) =
        next_ident-key k ks (v ∷ vs) n u key
          (or_left (chars.is_whitespace v) ((v == 44) || (v == 61)) value.0) in
      let (n₂, e₂) = next_value-last v vs n₁ value in (n₂, bind-ok _ _ _ e₁ ∙ bind-ok _ _ _ e₂)
  read_pairs-print ((k ∷ ks, v ∷ vs) ∷ p ∷ ps) n u ((key, value), hs) =
      let rest = print (p ∷ ps) in
      let (n₁, e₁) =
        next_ident-key k ks (v ∷ vs ++ 32 ∷ rest) n u key (value-Begins v vs (32 ∷ rest) value) in
      let (n₂, e₂) = next_value-value v vs rest n₁ u value (print-Begins p ps hs.0) in
      let (n₃, e₃) = read_pairs-print (p ∷ ps) n₂ u hs in
      (n₃, bind-ok _ _ _ e₁ ∙ (bind-ok _ _ _ e₂ ∙ bind-ok _ _ _ e₃))
