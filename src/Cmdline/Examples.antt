-- ===== src/Cmdline/Examples.antt =====
-- A command line for kernel/src/cmdline/tokenizer.rs, and the theorem at it.
use emerald.Prelude.{ℕ, ◌≡◌, refl, List, [], ◌∷◌, ◌&&◌, ◌||◌, ok, ◌>>=◌, leb, ltb, ◌==◌}
use emerald.Cmdline.{Text, Chars, Tokenizer, take_token, next_token, next_value}
use emerald.Cmdline.Pairs.{read_pairs, print, read_pairs-print}

-- The characters below 128.
abbrev ascii : Chars
ascii = record {
  is_alphanumeric =
      λ c. (leb 48 c && ltb c 58) || ((leb 65 c && ltb c 91) || (leb 97 c && ltb c 123));
  is_whitespace = λ c. (c == 32) || (leb 9 c && ltb c 14);
  len_utf8 = λ c. 1;
}

-- `uart=1`, `log_file=/k`
abbrev settings : List (Text × Text)
settings =
    (117 ∷ 97 ∷ 114 ∷ 116 ∷ [], 49 ∷ []) ∷ (108 ∷ 111 ∷ 103 ∷ 95 ∷ 102 ∷ [], 47 ∷ 107 ∷ []) ∷ []

abbrev at_line : Text → ℕ → Tokenizer
at_line cs n = record { running_str = cs; idx = n }

read_pairs-print_example :
    (n : ℕ) × (read_pairs ascii 3 (at_line (print settings) 0) ≡ ok (settings, at_line [] n))
read_pairs-print_example =
    read_pairs-print ascii settings 0 (refl, refl)
      (
        (((refl, (refl, (refl, (refl, tt)))), (refl, (refl, (refl, (refl, tt))))), (refl, tt)),
        (
          (
            (
              (refl, (refl, (refl, (refl, (refl, tt))))),
              (refl, (refl, (refl, (refl, (refl, tt))))),
            ),
            (refl, (refl, tt)),
          ),
          tt,
        ),
      )

-- The value after `=` goes on to the end of the text where it has another `=`.
two_equals :
    (next_value ascii (at_line (97 ∷ 61 ∷ 98 ∷ 32 ∷ 99 ∷ []) 0) >>= λ r. ok r.0.1)
    ≡ ok (97 ∷ 61 ∷ 98 ∷ 32 ∷ 99 ∷ [])
unfolding next_value next_token take_token
two_equals = refl
